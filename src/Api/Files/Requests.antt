-- ===== src/Api/Files/Requests.antt =====
-- What starting an upload, sending a chunk and deleting a file leave of signed files
-- (server/api/files.go).
use moebius.Prelude.{
  ℕ, ltb, String, ◌≡◌, ◌⊎◌, refl, inl, inr, true, false, ◌==◌, Option, none, some, List, [], ◌∷◌,
  ◌++◌, arith, map, contains, find, delete, All-append, All-imp, All-select, Bool-cases,
  Option-cases,
}
use moebius.Prelude.Int.{ℤ, pos, negsuc}
use moebius.Prelude.Keys.{Distinct-append, Distinct-select}
use moebius.Models.Files.{Bytes, FileRow, FileUpload, SigningKey}
use moebius.Database.{Env, delete_file, make_stage_dir}
use moebius.Storage.{Stored}
use moebius.Quota.{Defaults}
use moebius.Api.Files.{Library, Files, is_open_upload, upload_chunk, store_chunk}
use moebius.Api.Files.Initiate.{
  InitiateUploadRequest, initiate_upload, insert_rows, file_accepted, new_file, new_upload,
  made_stage_dir,
}
use moebius.Api.Files.Serve.{delete_file_handler, delete_rows, find_file, active_jobs}
use moebius.Api.Files.Effects.{sign}
use moebius.Api.Files.Signed.{is_genuine, genuine-remove}
use moebius.Api.Files.Verified.{AreSafe, file_id}
use moebius.Api.Files.Sending.{IsKept}

pub delete_rows-AreSafe :
    (lib : Library) (env : Env) (tenant user : String) (r : FileRow) (id : String) (s : Files)
    → AreSafe lib s
    → AreSafe lib (delete_rows env tenant user r id s)
unfolding delete_rows delete
delete_rows-AreSafe lib env tenant user r id s h = (
  Distinct-select file_id _ s.files h.0,
  All-imp _ _
      (λ f g. elim (Bool-cases (r.storage_path == "")) [
        | inl e ↦ rw e g
        | inr e ↦ rw e (genuine-remove lib s.signing_keys env id s.storage f g)
      ])
      _ (All-select _ _ s.files h.1),
)

pub delete_file_handler-outcome :
    (lib : Library) (env : Env) (tenant user id : String) (s : Files)
    → ((delete_file_handler lib env tenant user id s).1 ≡ s)
      ⊎ ((r : FileRow) × ((delete_file_handler lib env tenant user id s).1
            ≡ delete_rows env tenant user r id s))
unfolding delete_file_handler
delete_file_handler-outcome lib env tenant user id s =
    elim (Option-cases (find_file env tenant id s)) [
      | inl e ↦ inl (ground (arith, e))
      | inr (r, e) ↦ elim (Bool-cases (ltb 0 (active_jobs lib env tenant id s))) [
        | inl a ↦ inl (ground (arith, e, a))
        | inr a ↦ elim (Bool-cases (env.fault delete_file)) [
          | inl f ↦ inl (ground (arith, e, a, f))
          | inr f ↦ inr (r, ground (arith, e, a, f))
        ]
      ]
    ]

new-genuine :
    (lib : Library) (keys : List SigningKey) (storage : List Stored) (f : FileRow)
    → f.signature_verified ≡ false
    → is_genuine lib keys storage f ≡ true
unfolding is_genuine
new-genuine lib keys storage f v = ground (arith, v)

insert-AreSafe :
    (lib : Library) (env : Env) (f : FileRow) (u : FileUpload) (s s' : Files)
    → f.signature_verified ≡ false
    → insert_rows env f u s ≡ some s'
    → AreSafe lib s
    → AreSafe lib s'
unfolding insert_rows file_accepted
insert-AreSafe lib env f u s s' v e h =
    let w : s' ≡ record s { files = s.files ++ f ∷ []; uploads = s.uploads ++ u ∷ [] } =
      ground (arith, e) in
    let c : contains f.id (map (λ (r : FileRow). r.id) s.files) ≡ false = ground (arith, e) in
    rw w (
      Distinct-append file_id s.files f h.0 c,
      All-append _ s.files (f ∷ []) h.1 (new-genuine lib s.signing_keys s.storage f v, tt),
    )

made_stage_dir-AreSafe :
    (lib : Library) (env : Env) (upload : String) (s : Files)
    → AreSafe lib s
    → AreSafe lib (made_stage_dir env upload s)
made_stage_dir-AreSafe lib env upload s h = elim (Bool-cases (env.fault make_stage_dir)) [
  | inl e ↦ rw e h
  | inr e ↦ rw e h
]

start-outcome :
    (quota : Option Defaults) (env : Env) (tenant user : String) (size : ℕ)
    (req : InitiateUploadRequest) (s s' : Files)
    → req.size_bytes ≡ pos size
    → insert_rows env (new_file env tenant user size req) (new_upload env tenant size) s ≡ some s'
    → ((initiate_upload quota env tenant user (some req) s).1 ≡ s)
      ⊎ ((initiate_upload quota env tenant user (some req) s).1
          ≡ made_stage_dir env (new_upload env tenant size).id s')
unfolding initiate_upload
start-outcome quota env tenant user size req s s' p e = ground (arith, p, e)

pub initiate_upload-AreSafe :
    (lib : Library) (quota : Option Defaults) (env : Env) (tenant user : String)
    (req : Option InitiateUploadRequest) (s : Files)
    → AreSafe lib s
    → AreSafe lib (initiate_upload quota env tenant user req s).1
unfolding initiate_upload
initiate_upload-AreSafe lib quota env tenant user none s h = h
initiate_upload-AreSafe lib quota env tenant user (some req) s h = elim (sign req.size_bytes) [
  | inr (n, p) ↦
      let w : (initiate_upload quota env tenant user (some req) s).1 ≡ s = ground (arith, p) in
      rw w h
  | inl (size, p) ↦
      let u = new_upload env tenant size in
      let f = new_file env tenant user size req in
      elim (Option-cases (insert_rows env f u s)) [
        | inl e ↦
            let w : (initiate_upload quota env tenant user (some req) s).1 ≡ s =
              ground (arith, p, e) in
            rw w h
        | inr (s', e) ↦ elim (start-outcome quota env tenant user size req s s' p e) [
          | inl w ↦ rw w h
          | inr w ↦
              rw w
                (made_stage_dir-AreSafe lib env u.id s' (insert-AreSafe lib env f u s s' refl e h))
        ]
      ]
]

store_chunk-IsKept :
    (env : Env) (u : FileUpload) (i : ℕ) (body : Bytes) (s : Files)
    → IsKept s (store_chunk env u i body s).1
unfolding store_chunk
store_chunk-IsKept env u i body s = (ground arith, ground arith, ground arith)

pub upload_chunk-IsKept :
    (lib : Library) (env : Env) (tenant id : String) (index : Option ℤ) (hash : String)
    (body : Option Bytes) (s : Files)
    → IsKept s (upload_chunk lib env tenant id index hash body s).1
unfolding upload_chunk
upload_chunk-IsKept lib env tenant id none hash body s = (refl, refl, refl)
upload_chunk-IsKept lib env tenant id (some (negsuc n)) hash body s =
    (ground arith, ground arith, ground arith)
upload_chunk-IsKept lib env tenant id (some (pos i)) hash none s =
    (ground arith, ground arith, ground arith)
upload_chunk-IsKept lib env tenant id (some (pos i)) hash (some body) s =
    elim (Option-cases (find (is_open_upload id tenant) s.uploads)) [
      | inl e ↦ (ground (arith, e), ground (arith, e), ground (arith, e))
      | inr (u, e) ↦
          let k = store_chunk-IsKept env u i body s in
          (ground (arith, e, k.0), ground (arith, e, k.1), ground (arith, e, k.2))
    ]
