-- ===== src/Agent/Update/Swap.antt =====
-- What becomes of the agent's binary in agent/executor/update.go and agent/executor/rollback.go.
use moebius.Prelude.{
  String, ◌≡◌, ◌⊎◌, sym, ◌∙◌, inl, inr, true, false, ◌==◌, some, arith, Option-cases,
}
use moebius.Models.Files.{Bytes}
use moebius.Api.Files.{Library}
use moebius.Agent.Update.{
  AgentUpdatePayload, Disk, Machine, Status, failed, restarting, swap_back, fetch_signing_key,
  verify_signature, backup, install, check_download, execute_agent_update, rollback,
  execute_agent_rollback,
}

-- The server's key accepts the payload's signature of the content's hash.
abbrev pub IsSigned : Library → Machine → AgentUpdatePayload → Bytes → Type 0
IsSigned lib m p content =
    (key : Bytes) × (sig : Bytes) × (fetch_signing_key lib m p.signature_key_id ≡ some key)
    × (lib.decode_base64 p.signature ≡ some sig)
    × (lib.ed25519_verify key (lib.sha256 content) sig ≡ true)

verify_signature-IsSigned :
    (lib : Library) (m : Machine) (p : AgentUpdatePayload) (content : Bytes)
    → verify_signature lib m content p.signature p.signature_key_id ≡ true
    → IsSigned lib m p content
unfolding verify_signature
verify_signature-IsSigned lib m p content h =
    elim (Option-cases (fetch_signing_key lib m p.signature_key_id)) [
      | inl e ↦ absurd (ground (arith, h, e))
      | inr (key, e) ↦ elim (Option-cases (lib.decode_base64 p.signature)) [
        | inl f ↦ absurd (ground (arith, h, e, f))
        | inr (sig, f) ↦ (key, sig, e, f, ground (arith, h, e, f))
      ]
    ]

-- A failure leaves the binary, and the record of a pending update, as they were.
abbrev pub IsUntouched : Disk → Status × Disk → Type 0
IsUntouched d done = (done.0 ≡ failed) × (done.1.current ≡ d.current) × (done.1.pending ≡ d.pending)

install-outcome :
    (m : Machine) (job : String) (p : AgentUpdatePayload) (binary content : Bytes) (d : Disk)
    → IsUntouched d (install m job p binary content d)
      ⊎ (((install m job p binary content d).0 ≡ restarting)
          × ((install m job p binary content d).1.current ≡ some content)
          × ((install m job p binary content d).1.previous ≡ some binary))
unfolding install backup
install-outcome m job p binary content d = ground arith

check_download-outcome :
    (lib : Library) (m : Machine) (job : String) (p : AgentUpdatePayload) (binary content : Bytes)
    (d : Disk)
    → IsUntouched d (check_download lib m job p binary content d)
      ⊎ (((lib.hex (lib.sha256 content) == p.sha256) ≡ true)
          × (verify_signature lib m content p.signature p.signature_key_id ≡ true)
          × ((check_download lib m job p binary content d).0 ≡ restarting)
          × ((check_download lib m job p binary content d).1.current ≡ some content)
          × ((check_download lib m job p binary content d).1.previous ≡ some binary))
unfolding check_download
check_download-outcome lib m job p binary content d =
    ground (arith, install-outcome m job p binary content d)

reached :
    (lib : Library) (m : Machine) (job : String) (p : AgentUpdatePayload) (binary content : Bytes)
    (d : Disk)
    → d.current ≡ some binary
    → m.fetch p.download_url ≡ some content
    → IsUntouched d (execute_agent_update lib m job (some p) d)
      ⊎ (execute_agent_update lib m job (some p) d
          ≡ check_download lib m job p binary content (record d { staging = some content }))
unfolding execute_agent_update
reached lib m job p binary content d e f = ground (arith, e, f)

-- An update either fails, and the agent's binary and the record of a pending update are as they were; or it asks
-- for the restart, and then the binary is the download, whose hash is the one of the payload and whose
-- signature the server's key accepts, and the binary of before is kept as the previous one.
pub execute_agent_update-outcome :
    (lib : Library) (m : Machine) (job : String) (p : AgentUpdatePayload) (d : Disk)
    → IsUntouched d (execute_agent_update lib m job (some p) d)
      ⊎ ((binary : Bytes) × (content : Bytes) × (d.current ≡ some binary)
          × (m.fetch p.download_url ≡ some content)
          × ((lib.hex (lib.sha256 content) == p.sha256) ≡ true)
          × IsSigned lib m p content
          × ((execute_agent_update lib m job (some p) d).0 ≡ restarting)
          × ((execute_agent_update lib m job (some p) d).1.current ≡ some content)
          × ((execute_agent_update lib m job (some p) d).1.previous ≡ some binary))
unfolding execute_agent_update
execute_agent_update-outcome lib m job p d = elim (Option-cases d.current) [
  | inl e ↦ inl (ground (arith, e), ground (arith, e), ground (arith, e))
  | inr (binary, e) ↦ elim (Option-cases (m.fetch p.download_url)) [
    | inl f ↦ inl (ground (arith, e, f), ground (arith, e, f), ground (arith, e, f))
    | inr (content, f) ↦
        let staged : Disk = record d { staging = some content } in
        elim (reached lib m job p binary content d e f) [
          | inl u ↦ inl u
          | inr same ↦ elim (check_download-outcome lib m job p binary content staged) [
            | inl u ↦ inl (rw same u)
            | inr (hash, v, r, c, old) ↦ inr (
              binary,
              content,
              e,
              f,
              hash,
              verify_signature-IsSigned lib m p content v,
              rw same r,
              rw same c,
              rw same old,
            )
          ]
        ]
  ]
]

rolled_back :
    (m : Machine) (d : Disk) (old : Bytes)
    → d.previous ≡ some old
    → m.has_platform ≡ true
    → m.fault swap_back ≡ false
    → ((execute_agent_rollback m d).0 ≡ restarting)
      × ((execute_agent_rollback m d).1.current ≡ some old)
unfolding execute_agent_rollback rollback
rolled_back m d old e platform ok =
    (ground (arith, e, platform, ok), ground (arith, e, platform, ok))

-- An update that asked for the restart is undone by a rollback whose rename succeeds, on a
-- platform: the binary is again the one of before.
pub execute_agent_rollback-execute_agent_update :
    (lib : Library) (m later : Machine) (job : String) (p : AgentUpdatePayload) (d : Disk)
    → (execute_agent_update lib m job (some p) d).0 ≡ restarting
    → later.has_platform ≡ true
    → later.fault swap_back ≡ false
    → ((execute_agent_rollback later (execute_agent_update lib m job (some p) d).1).0 ≡ restarting)
      × ((execute_agent_rollback later (execute_agent_update lib m job (some p) d).1).1.current
          ≡ d.current)
execute_agent_rollback-execute_agent_update lib m later job p d h platform ok =
    elim (execute_agent_update-outcome lib m job p d) [
      | inl u ↦ absurd (ground (arith, h, u.0))
      | inr (binary, content, e, _, _, _, _, _, old) ↦
          let w =
            rolled_back later (execute_agent_update lib m job (some p) d).1 binary old platform
              ok in
          (w.0, w.1 ∙ sym e)
    ]
