-- ===== src/Agent/LogShipper.antt =====
-- agent/logshipper/shipper.go: the buffer of log entries. A flush is two critical sections with
-- the request between them, so that entries can be added in the meantime.
pub mod Steps
pub mod Order
use moebius.Prelude.{
  ℕ, ◌+◌, ◌-◌, String, Bool, true, false, Option, none, some, List, [], ◌∷◌, ◌++◌, length, take,
  drop, ltb, leb, if◌then◌else◌,
}
use moebius.Prelude.Int.{ℤ, pos, negsuc}

pub record LogEntry : Type 0 where
  pub timestamp : ℕ
  pub level : String
  pub message : String

abbrev pub default_max_batch : ℕ
default_max_batch = 500

abbrev pub default_max_buffer : ℕ
default_max_buffer = 5000

-- The buffer, and the batch of the flush that is under way.
pub record Shipper : Type 0 where
  pub buffer : List LogEntry
  pub batch : Option (List LogEntry)

-- Add
unfoldable pub add : LogEntry → Shipper → Shipper
add entry s =
    if leb default_max_buffer (length s.buffer)
    then s
    else record s { buffer = s.buffer ++ entry ∷ [] }

-- What becomes of the request: it cannot be built, client.Do reports an error, or a status.
pub data Outcome : Type 0 where
  unbuilt : Outcome
  unreachable : Outcome
  answered : ℕ → Outcome

-- The batch of up to `max` entries, and the rest.
unfoldable pub split_batch : ℕ → List LogEntry → List LogEntry × List LogEntry
split_batch max entries =
    let n = length entries in
    let m = if ltb max n then max else n in (take m entries, drop m entries)

-- The first critical section of flush.
unfoldable pub begin_flush : Shipper → Shipper
unfolding split_batch
begin_flush s =
    if leb (length s.buffer) 0
    then s
    else let parts = split_batch default_max_batch s.buffer in
      record { buffer = parts.1; batch = some parts.0 }

unfoldable pub cut : ℕ → List LogEntry → List LogEntry
cut max entries = if ltb max (length entries) then take max entries else entries

-- The batch is put back in front, and the buffer cut.
unfoldable pub rebuffer : List LogEntry → List LogEntry → List LogEntry
unfolding cut
rebuffer batch buffer = cut default_max_buffer (batch ++ buffer)

-- The rest of flush.
unfoldable pub end_flush : Outcome → Shipper → Shipper
unfolding rebuffer
end_flush outcome s = elim s.batch [
  | none ↦ s
  | some batch ↦
      let done : Shipper = record s { batch = none } in
      elim outcome [
        | unbuilt ↦ done
        | unreachable ↦ record done { buffer = rebuffer batch s.buffer }
        | answered status ↦
            if leb 500 status then record done { buffer = rebuffer batch s.buffer } else done
      ]
]

unfoldable pub pending : Shipper → ℕ
pending s = length s.buffer

-- slog's levels: debug is -4, info 0, warn 4 and error 8.
unfoldable pub slog_level_to_string : ℤ → String
slog_level_to_string (negsuc n) = "debug"
slog_level_to_string (pos l) = if leb 8 l then "error" else if leb 4 l then "warn" else "info"

abbrev pub at_least : ℤ → ℤ → Bool
at_least (pos a) (pos b) = leb b a
at_least (pos a) (negsuc b) = true
at_least (negsuc a) (pos b) = false
at_least (negsuc a) (negsuc b) = leb a b

-- Handler.Handle, without the inner handler.
unfoldable pub handle : ℤ → ℤ → ℕ → String → Shipper → Shipper
unfolding add slog_level_to_string
handle min_level level time message s =
    if at_least level min_level
    then add (record { timestamp = time; level = slog_level_to_string level; message = message }) s
    else s
