-- ===== src/Tests/Updating.antt =====
-- The theorems about the agent's own update, on an update from 1.0 to 2.0.
use moebius.Prelude.{◌≡◌, ◌⊎◌, refl, true, false, ◌==◌, none, some, [], ◌∷◌}
use moebius.Models.Files.{Bytes}
use moebius.Agent.Update.{
  AgentUpdatePayload, Disk, Machine, restarting, execute_agent_update, execute_agent_rollback,
  check_download, install, backup, verify_signature, fetch_signing_key,
}
use moebius.Agent.Update.Swap.{
  IsSigned, IsUntouched, execute_agent_update-outcome, execute_agent_rollback-execute_agent_update,
}
use moebius.Tests.Uploads.{library}

abbrev payload : AgentUpdatePayload
payload = record {
  version = "2.0";
  download_url = "/v1/files/data/fil_a";
  sha256 = "hash";
  signature = "c2ln";
  signature_key_id = "key_a";
  size_bytes = 3;
  force = false;
}

abbrev machine : Machine
machine = record {
  version = "1.0";
  now = 10;
  has_platform = true;
  poll_interval = 30;
  fault = λ c. false;
  fetch = λ url. some (2 ∷ 0 ∷ []);
  fetch_key = λ key. some "pem";
  broken = [];
}

abbrev disk : Disk
disk = record { current = some (1 ∷ 0 ∷ []); previous = none; staging = none; pending = none }

execute_agent_update-outcome_example :
    IsUntouched disk (execute_agent_update library machine "job_u" (some payload) disk)
    ⊎ ((binary : Bytes) × (content : Bytes) × (disk.current ≡ some binary)
        × (machine.fetch payload.download_url ≡ some content)
        × ((library.hex (library.sha256 content) == payload.sha256) ≡ true)
        × IsSigned library machine payload content
        × ((execute_agent_update library machine "job_u" (some payload) disk).0 ≡ restarting)
        × ((execute_agent_update library machine "job_u" (some payload) disk).1.current
            ≡ some content)
        × ((execute_agent_update library machine "job_u" (some payload) disk).1.previous
            ≡ some binary))
execute_agent_update-outcome_example =
    execute_agent_update-outcome library machine "job_u" payload disk

updates : (execute_agent_update library machine "job_u" (some payload) disk).0 ≡ restarting
unfolding execute_agent_update check_download install backup verify_signature fetch_signing_key
updates = refl

execute_agent_rollback-execute_agent_update_example :
    ((execute_agent_rollback machine
        (execute_agent_update library machine "job_u" (some payload) disk).1).0
      ≡ restarting)
    × ((execute_agent_rollback machine
          (execute_agent_update library machine "job_u" (some payload) disk).1).1.current
        ≡ disk.current)
execute_agent_rollback-execute_agent_update_example =
    execute_agent_rollback-execute_agent_update library machine machine "job_u" payload disk updates
      refl refl
