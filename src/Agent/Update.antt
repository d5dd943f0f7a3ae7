-- ===== src/Agent/Update.antt =====
-- agent/executor/update.go, agent/executor/rollback.go and agent/update: the binary of the agent is
-- replaced, and put back. The server's answers and the file system's errors are parameters.
pub mod Swap
use Prim.Native.Nat.{Ordering}
use Prim.Native.String.{compare as compare_text}
use moebius.Prelude.{
  ℕ, ◌+◌, ◌*◌, String, Bool, true, false, not, ◌&&◌, ◌||◌, ◌==◌, Option, none, some, List, [],
  ◌>>=◌, is_none, ltb, eqb, if◌then◌else◌,
}
use moebius.Models.Files.{Bytes}
use moebius.Models.Job.{second}
use moebius.Api.Files.{Library, PublicKey, ed25519, other_key}

-- A negative size is 0 here, as in the test of it; the channel is not used.
pub record AgentUpdatePayload : Type 0 where
  pub version : String
  pub download_url : String
  pub sha256 : String
  pub signature : String
  pub signature_key_id : String
  pub size_bytes : ℕ
  pub force : Bool

pub record PendingUpdate : Type 0 where
  pub job_id : String
  pub expected_version : String
  pub previous_version : String
  pub deadline : ℕ

-- The files of the platform.
pub record Disk : Type 0 where
  pub current : Option Bytes
  pub previous : Option Bytes
  pub staging : Option Bytes
  pub pending : Option PendingUpdate

-- The calls that can fail.
pub data Io : Type 0 where
  disk_space hash_file read_staging chmod_staging backup_open backup_write swap write_pending
        read_pending swap_back remove_pending :
      Io

-- What the agent finds: its version, the clock, the calls that fail, the bytes that a download or
-- a broken copy yields, and the public keys that the server answers with.
pub record Machine : Type 0 where
  pub version : String
  pub now : ℕ
  pub has_platform : Bool
  pub poll_interval : ℕ
  pub fault : Io → Bool
  pub fetch : String → Option Bytes
  pub fetch_key : String → Option String
  pub broken : Bytes

-- The status of a result.
pub data Status : Type 0 where
  failed restarting : Status

-- Go's a <= b on texts.
abbrev text_le : String → String → Bool
text_le a b = elim (compare_text a b) [ Ordering.gt ↦ false | _ ↦ true ]

-- fetchSigningKey
unfoldable pub fetch_signing_key : Library → Machine → String → Option Bytes
fetch_signing_key lib m key_id = do
  pem ← m.fetch_key key_id
  block ← lib.pem_decode pem
  key ← lib.parse_pkix block
  elim key [ ed25519 k ↦ some k | other_key ↦ none ]

-- verifySignature: whether it returns no error.
unfoldable pub verify_signature : Library → Machine → Bytes → String → String → Bool
unfolding fetch_signing_key
verify_signature lib m content signature key_id = elim (fetch_signing_key lib m key_id) [
  | none ↦ false
  | some key ↦ if m.fault read_staging then false else elim (lib.decode_base64 signature) [
    | none ↦ false
    | some sig ↦ lib.ed25519_verify key (lib.sha256 content) sig
  ]
]

-- copyFile from the current binary to the previous one, and whether it succeeds.
unfoldable pub backup : Machine → Bytes → Disk → Bool × Disk
backup m binary d =
    if m.fault backup_open
    then (false, d)
    else if m.fault backup_write
    then (false, record d { previous = some m.broken })
    else (true, record d { previous = some binary })

abbrev pub unstaged : Disk → Disk
unstaged d = record d { staging = none }

abbrev pub pending_of : Machine → String → AgentUpdatePayload → PendingUpdate
pending_of m job p = record {
  job_id = job;
  expected_version = p.version;
  previous_version = m.version;
  deadline = m.now + 3 * (if ltb 0 m.poll_interval then m.poll_interval else 30) * second;
}

-- From the verified download on.
unfoldable pub install :
    Machine → String → AgentUpdatePayload → Bytes → Bytes → Disk → Status × Disk
unfolding backup
install m job p binary content d =
    if m.fault chmod_staging
    then (failed, unstaged d)
    else if not (backup m binary d).0
    then (failed, unstaged (backup m binary d).1)
    else if m.fault swap
    then (failed, unstaged (backup m binary d).1)
    else (
      restarting,
      record (unstaged (backup m binary d).1) {
        current = some content;
        pending = if m.fault write_pending then d.pending else some (pending_of m job p);
      },
    )

-- The checks on the download, which is staged.
unfoldable pub check_download :
    Library → Machine → String → AgentUpdatePayload → Bytes → Bytes → Disk → Status × Disk
unfolding install verify_signature
check_download lib m job p binary content d =
    if p.sha256 == "" || m.fault hash_file || not (lib.hex (lib.sha256 content) == p.sha256)
    then (failed, unstaged d)
    else if p.signature == "" || p.signature_key_id == ""
    then (failed, unstaged d)
    else if not (verify_signature lib m content p.signature p.signature_key_id)
    then (failed, unstaged d)
    else install m job p binary content d

-- executeAgentUpdate; `none` is a payload that does not decode.
unfoldable pub execute_agent_update :
    Library → Machine → String → Option AgentUpdatePayload → Disk → Status × Disk
unfolding check_download
execute_agent_update lib m job none d = (failed, d)
execute_agent_update lib m job (some p) d =
    if p.version == "" || not p.force && not (m.version == "dev") && text_le p.version m.version
    then (failed, d)
    else if not m.has_platform
    then (failed, d)
    else elim d.current [
      | none ↦ (failed, d)
      | some binary ↦
          if ltb 0 p.size_bytes && m.fault disk_space || p.download_url == ""
          then (failed, d)
          else elim (m.fetch p.download_url) [
            | none ↦ (failed, unstaged d)
            | some content ↦
                check_download lib m job p binary content (record d { staging = some content })
          ]
    ]

-- Rollback, and whether it returns no error.
unfoldable pub rollback : Machine → Disk → Bool × Disk
rollback m d = elim d.previous [
  | none ↦ (false, d)
  | some old ↦ if m.fault swap_back then (false, d) else (
    true,
    record d {
      current = some old;
      previous = none;
      pending = if m.fault remove_pending then d.pending else none;
    },
  )
]

-- executeAgentRollback on a payload that decodes.
unfoldable pub execute_agent_rollback : Machine → Disk → Status × Disk
unfolding rollback
execute_agent_rollback m d =
    if not m.has_platform
    then (failed, d)
    else if is_none d.previous
    then (failed, d)
    else if (rollback m d).0
    then (restarting, (rollback m d).1)
    else (failed, (rollback m d).1)

-- VerifyResult: there is nothing to verify, the update holds, or it is to be rolled back.
pub data VerifyResult : Type 0 where
  nothing : VerifyResult
  success : PendingUpdate → VerifyResult
  need_roll : PendingUpdate → VerifyResult

-- CheckPostRestart
unfoldable pub check_post_restart : Machine → Disk → VerifyResult
check_post_restart m d = if m.fault read_pending then nothing else elim d.pending [
  | none ↦ nothing
  | some p ↦
      if ltb p.deadline m.now
      then need_roll p
      else if not (m.version == p.expected_version)
      then need_roll p
      else success p
]
