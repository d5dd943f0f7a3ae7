-- ===== src/Agent/LogShipper/Steps.antt =====
-- Sequences of what happens to the buffer of agent/logshipper/shipper.go.
use moebius.Prelude.{
  Bool, true, false, none, some, List, [], ◌∷◌, ◌++◌, ltb, leb, if◌then◌else◌, not, ◌&&◌,
}
use moebius.Agent.LogShipper.{
  LogEntry, Shipper, Outcome, unbuilt, unreachable, answered, add, begin_flush, end_flush,
}

-- A step of the shipper: there is one flush at a time.
pub data Step : Type 0 where
  adding : LogEntry → Step
  beginning : Step
  ending : Outcome → Step

-- The server has taken the batch: it answered with a status of success.
abbrev pub is_success : Outcome → Bool
is_success unbuilt = false
is_success unreachable = false
is_success (answered status) = leb 200 status && ltb status 300

-- The batch is lost: its request could not be built, or the server answered neither with success
-- nor with an error of its own, as with 401 or 413.
abbrev pub loses : Step → Bool
loses (adding e) = false
loses beginning = false
loses (ending unbuilt) = true
loses (ending unreachable) = false
loses (ending (answered status)) = not (is_success (answered status)) && ltb status 500

-- The batch has left the shipper for good, taken or lost.
abbrev pub is_final : Outcome → Bool
is_final unbuilt = true
is_final unreachable = false
is_final (answered status) = if leb 500 status then false else true

abbrev pub in_flight : Shipper → List LogEntry
in_flight s = elim s.batch [ none ↦ [] | some b ↦ b ]

unfoldable pub happen : Step → Shipper → Shipper
happen (adding e) s = add e s
happen beginning s = elim s.batch [ none ↦ begin_flush s | some b ↦ s ]
happen (ending o) s = end_flush o s

unfoldable pub run : List Step → Shipper → Shipper
run [] s = s
run (x ∷ xs) s = run xs (happen x s)

-- The entries given to Add, in order.
unfoldable pub entries : List Step → List LogEntry
entries [] = []
entries (adding e ∷ xs) = e ∷ entries xs
entries (beginning ∷ xs) = entries xs
entries (ending o ∷ xs) = entries xs

-- The batches that left the shipper, taken or lost, joined.
unfoldable pub departed : List Step → Shipper → List LogEntry
departed [] s = []
departed (adding e ∷ xs) s = departed xs (happen (adding e) s)
departed (beginning ∷ xs) s = departed xs (happen beginning s)
departed (ending o ∷ xs) s =
    (if is_final o then in_flight s else []) ++ departed xs (happen (ending o) s)

-- The batches that the server took, joined.
unfoldable pub delivered : List Step → Shipper → List LogEntry
delivered [] s = []
delivered (adding e ∷ xs) s = delivered xs (happen (adding e) s)
delivered (beginning ∷ xs) s = delivered xs (happen beginning s)
delivered (ending o ∷ xs) s =
    (if is_success o then in_flight s else []) ++ delivered xs (happen (ending o) s)

-- All the shipper holds, in order.
abbrev pub held : Shipper → List LogEntry
held s = in_flight s ++ s.buffer
