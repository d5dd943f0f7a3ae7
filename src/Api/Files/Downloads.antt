-- ===== src/Api/Files/Downloads.antt =====
-- What server/api/files.go serves of signed files, after any history of requests.
use moebius.Prelude.{
  String, ◌≡◌, ◌≢◌, ap, ◌∙◌, inl, inr, true, false, eq_iff, Option, some, List, [], ◌∷◌, arith, All,
  find, find-All, find-true, Option-cases,
}
use moebius.Models.Files.{Bytes, FileRow, SigningKey}
use moebius.Database.{Env, remove_file}
use moebius.Storage.{Stored, has_key, open_stored}
use moebius.Quota.{Defaults}
use moebius.Api.Respond.{reply, error_status}
use moebius.Api.Files.{Library, Files}
use moebius.Api.Files.Complete.{has_row, scan_file}
use moebius.Api.Files.Serve.{download, FileDownloadResponse, serve_file_data}
use moebius.Api.Files.Chunks.{Incoming, handle, run, initiating, sending, completing, removing}
use moebius.Api.Files.Signed.{is_genuine, signature_holds}
use moebius.Api.Files.Verified.{AreSafe, has_row-id, complete-AreSafe}
use moebius.Api.Files.Requests.{
  delete_rows-AreSafe, delete_file_handler-outcome, initiate_upload-AreSafe, upload_chunk-IsKept,
}

pub handle-AreSafe :
    (quota : Option Defaults) (lib : Library) (c : Incoming) (s : Files)
    → c.env.fault remove_file ≡ false
    → AreSafe lib s
    → AreSafe lib (handle quota lib c s)
unfolding handle
handle-AreSafe quota lib c s k h =
    elim c.request as (λ r. AreSafe lib (handle quota lib (record c { request = r }) s)) [
      | initiating req ↦ initiate_upload-AreSafe lib quota c.env c.tenant c.user req s h
      | sending id index hash body ↦
          let w = upload_chunk-IsKept lib c.env c.tenant id index hash body s in
          rw (w.0, w.1, w.2) h
      | completing id ↦ complete-AreSafe lib c.env c.tenant c.user id s k h
      | removing id ↦ elim (delete_file_handler-outcome lib c.env c.tenant c.user id s) [
        | inl e ↦ rw e h
        | inr (r, e) ↦ rw e (delete_rows-AreSafe lib c.env c.tenant c.user r id s h)
      ]
    ]

pub run-AreSafe :
    (quota : Option Defaults) (lib : Library) (cs : List Incoming) (s : Files)
    → All (λ c. c.env.fault remove_file ≡ false) cs
    → AreSafe lib s
    → AreSafe lib (run quota lib cs s)
unfolding run
run-AreSafe quota lib [] s k h = h
run-AreSafe quota lib (c ∷ cs) s k h =
    run-AreSafe quota lib cs (handle quota lib c s) k.1 (handle-AreSafe quota lib c s k.0 h)

signed-genuine :
    (lib : Library) (keys : List SigningKey) (storage : List Stored) (f : FileRow) (content : Bytes)
    (st : Stored)
    → f.signature_verified ≡ true
    → find (has_key f.id) storage ≡ some st
    → st.content ≡ content
    → is_genuine lib keys storage f ≡ true
    → signature_holds lib keys f (lib.sha256 content) ≡ true
unfolding is_genuine
signed-genuine lib keys storage f content st v e c h = ground (arith, v, e, c, h)

served-stored :
    (env : Env) (id : String) (s : Files) (content : Bytes)
    → serve_file_data env id s ≡ reply 200 content
    → (st : Stored) × (find (has_key id) s.storage ≡ some st) × (st.content ≡ content)
unfolding serve_file_data open_stored error_status
served-stored env id s content h = elim (Option-cases (find (has_key id) s.storage)) [
  | inl e ↦ absurd (ground (arith, h, e))
  | inr (st, e) ↦ (st, e, ground (arith, h, e))
]

downloaded-row :
    (env : Env) (tenant id : String) (s : Files) (d : FileDownloadResponse)
    → download env tenant id s ≡ reply 200 d
    → d.signature ≢ ""
    → (f : FileRow) × (find (has_row id tenant) s.files ≡ some f)
      × (f.signature ≡ some d.signature)
      × (f.signature_verified ≡ true)
unfolding download error_status scan_file
downloaded-row env tenant id s d h n = elim (Option-cases (find (has_row id tenant) s.files)) [
  | inl e ↦ absurd (ground (arith, h, e))
  | inr (f, e) ↦ elim (Option-cases f.signature) [
    | inl g ↦ absurd (ground (arith, h, e, g))
    | inr (sig, g) ↦ elim (Option-cases f.signature_key_id) [
      | inl k ↦ absurd (ground (arith, h, e, g, k))
      | inr (key, k) ↦
          let same : sig ≡ d.signature = ground (arith, h, e, g, k) in
          (f, e, g ∙ ap some same, ground (arith, h, e, g, k, n, same, eq_iff sig ""))
    ]
  ]
]

-- After any history of requests in which no removal of a stored file fails, with whatever other
-- errors, from tables in which the rows marked as verified are genuine: where the download endpoint answers a tenant for a file with a signature,
-- and the data endpoint serves bytes for that file, the signature in the answer is the one of
-- the file's row, and a signing key of that tenant accepts it for the hash of those bytes.
pub run-download :
    (quota : Option Defaults) (lib : Library) (cs : List Incoming) (s : Files) (env : Env)
    (tenant id : String) (d : FileDownloadResponse) (content : Bytes)
    → All (λ c. c.env.fault remove_file ≡ false) cs
    → AreSafe lib s
    → download env tenant id (run quota lib cs s) ≡ reply 200 d
    → d.signature ≢ ""
    → serve_file_data env id (run quota lib cs s) ≡ reply 200 content
    → (f : FileRow) × (find (has_row id tenant) (run quota lib cs s).files ≡ some f)
      × (f.signature ≡ some d.signature)
      × (signature_holds lib (run quota lib cs s).signing_keys f (lib.sha256 content) ≡ true)
run-download quota lib cs s env tenant id d content kept safe h n served =
    let s' = run quota lib cs s in
    let (f, e, g, v) = downloaded-row env tenant id s' d h n in
    let (st, w, c) = served-stored env id s' content served in
    let genuine = (run-AreSafe quota lib cs s kept safe).1 in
    let i : f.id ≡ id = has_row-id id tenant f (find-true (has_row id tenant) s'.files e) in
    (
      f,
      e,
      g,
      signed-genuine lib s'.signing_keys s'.storage f content st v (rw i w) c
          (find-All _ (has_row id tenant) s'.files genuine e),
    )
