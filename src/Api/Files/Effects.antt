-- ===== src/Api/Files/Effects.antt =====
-- What the handlers of server/api/files.go do to the sessions in file_uploads.
use moebius.Prelude.{
  ℕ, ◌<◌, ◌∙◌, String, ◌≡◌, refl, ◌⊎◌, inl, inr, Bool, true, false, ◌==◌, Option, none, some, [],
  ◌∷◌, ◌++◌, arith, map, contains, find, update, eqb, length, Bool-cases, Option-cases,
}
use moebius.Prelude.Int.{ℤ, pos, negsuc}
use moebius.Models.Files.{Bytes, FileRow, FileUpload}
use moebius.Database.{Env, select_upload}
use moebius.Quota.{Defaults}
use moebius.Storage.{save}
use moebius.Api.Files.{Library, Files, is_open_upload, chunk_row, store_chunk, upload_chunk}
use moebius.Api.Files.Initiate.{
  InitiateUploadRequest, new_file, new_upload, insert_rows, initiate_upload,
}
use moebius.Api.Files.Complete.{complete, assemble, accept_digest, finish_upload, read_chunks}

pub sign : (z : ℤ) → ((n : ℕ) × (z ≡ pos n)) ⊎ ((n : ℕ) × (z ≡ negsuc n))
sign (pos n) = inl (n, refl)
sign (negsuc n) = inr (n, refl)

insert_rows-uploads :
    (env : Env) (f : FileRow) (u : FileUpload) (s s' : Files)
    → insert_rows env f u s ≡ some s'
    → (s'.uploads ≡ s.uploads ++ u ∷ [])
      × (contains u.id (map (λ (r : FileUpload). r.id) s.uploads) ≡ false)
unfolding insert_rows
insert_rows-uploads env f u s s' h = (ground (arith, h), ground (arith, h))

start_uploads :
    (quota : Option Defaults) (env : Env) (tenant user : String) (size : ℕ)
    (req : InitiateUploadRequest) (s s' : Files)
    → req.size_bytes ≡ pos size
    → insert_rows env (new_file env tenant user size req) (new_upload env tenant size) s ≡ some s'
    → ((initiate_upload quota env tenant user (some req) s).1.uploads ≡ s.uploads)
      ⊎ ((initiate_upload quota env tenant user (some req) s).1.uploads ≡ s'.uploads)
unfolding initiate_upload
start_uploads quota env tenant user size req s s' p e = ground (arith, p, e)

pub initiate_upload-uploads :
    (quota : Option Defaults) (env : Env) (tenant user : String)
    (req : Option InitiateUploadRequest) (s : Files)
    → ((initiate_upload quota env tenant user req s).1.uploads ≡ s.uploads)
      ⊎ ((u : FileUpload) × (u.uploaded_chunks ≡ [])
          × (contains u.id (map (λ (r : FileUpload). r.id) s.uploads) ≡ false)
          × ((initiate_upload quota env tenant user req s).1.uploads ≡ s.uploads ++ u ∷ []))
unfolding initiate_upload
initiate_upload-uploads quota env tenant user none s = inl refl
initiate_upload-uploads quota env tenant user (some req) s = elim (sign req.size_bytes) [
  | inr (n, p) ↦ inl (ground (arith, p))
  | inl (size, p) ↦
      let u = new_upload env tenant size in
      elim (Option-cases (insert_rows env (new_file env tenant user size req) u s)) [
        | inl e ↦ inl (ground (arith, p, e))
        | inr (s', e) ↦
            let h = insert_rows-uploads env (new_file env tenant user size req) u s s' e in
            elim (start_uploads quota env tenant user size req s s' p e) [
              | inl same ↦ inl same
              | inr new ↦ inr (u, refl, h.1, new ∙ h.0)
            ]
      ]
]

pub store_chunk-uploads :
    (env : Env) (u : FileUpload) (i : ℕ) (body : Bytes) (s : Files)
    → ((store_chunk env u i body s).1.uploads ≡ s.uploads)
      ⊎ ((store_chunk env u i body s).1.uploads
          ≡ update (λ (r : FileUpload). r.id == u.id) (chunk_row env.now i) s.uploads)
unfolding store_chunk
store_chunk-uploads env u i body s = ground arith

found_uploads :
    (lib : Library) (env : Env) (tenant id : String) (i : ℕ) (hash : String) (body : Bytes)
    (s : Files) (u : FileUpload)
    → find (is_open_upload id tenant) s.uploads ≡ some u
    → ((upload_chunk lib env tenant id (some (pos i)) hash (some body) s).1.uploads ≡ s.uploads)
      ⊎ ((i < u.total_chunks)
          × ((upload_chunk lib env tenant id (some (pos i)) hash (some body) s).1.uploads
              ≡ update (λ (r : FileUpload). r.id == u.id) (chunk_row env.now i) s.uploads))
unfolding upload_chunk
found_uploads lib env tenant id i hash body s u e =
    ground (arith, e, store_chunk-uploads env u i body s)

pub upload_chunk-uploads :
    (lib : Library) (env : Env) (tenant id : String) (index : Option ℤ) (hash : String)
    (body : Option Bytes) (s : Files)
    → ((upload_chunk lib env tenant id index hash body s).1.uploads ≡ s.uploads)
      ⊎ ((u : FileUpload) × (i : ℕ) × (find (is_open_upload id tenant) s.uploads ≡ some u)
          × (i < u.total_chunks)
          × ((upload_chunk lib env tenant id index hash body s).1.uploads
              ≡ update (λ (r : FileUpload). r.id == u.id) (chunk_row env.now i) s.uploads))
unfolding upload_chunk
upload_chunk-uploads lib env tenant id none hash body s = inl refl
upload_chunk-uploads lib env tenant id (some (negsuc n)) hash body s = inl (ground arith)
upload_chunk-uploads lib env tenant id (some (pos i)) hash none s = inl (ground arith)
upload_chunk-uploads lib env tenant id (some (pos i)) hash (some body) s =
    elim (Option-cases (find (is_open_upload id tenant) s.uploads)) [
      | inl e ↦ inl (ground (arith, e))
      | inr (u, e) ↦ elim (found_uploads lib env tenant id i hash body s u e) [
        | inl same ↦ inl same
        | inr h ↦ inr (u, i, e, h.0, h.1)
      ]
    ]

abbrev pub end_row : ℕ → FileUpload → FileUpload
end_row now r = record r { completed_at = some now }

finish_upload-uploads :
    (env : Env) (tenant user : String) (u : FileUpload) (path : String) (verified : Bool)
    (s : Files)
    → ((finish_upload env tenant user u path verified s).uploads ≡ s.uploads)
      ⊎ ((finish_upload env tenant user u path verified s).uploads
          ≡ update (λ (r : FileUpload). r.id == u.id) (end_row env.now) s.uploads)
unfolding finish_upload
finish_upload-uploads env tenant user u path verified s = ground arith

accept_digest-uploads :
    (lib : Library) (env : Env) (tenant user : String) (u : FileUpload) (path : String)
    (digest : Bytes) (s : Files)
    → ((accept_digest lib env tenant user u path digest s).1.uploads ≡ s.uploads)
      ⊎ ((accept_digest lib env tenant user u path digest s).1.uploads
          ≡ update (λ (r : FileUpload). r.id == u.id) (end_row env.now) s.uploads)
unfolding accept_digest
accept_digest-uploads lib env tenant user u path digest s = ground (
  arith,
  finish_upload-uploads env tenant user u path true s,
  finish_upload-uploads env tenant user u path false s,
)

assemble-uploads :
    (lib : Library) (env : Env) (tenant user : String) (u : FileUpload) (s : Files)
    → ((assemble lib env tenant user u s).1.uploads ≡ s.uploads)
      ⊎ ((assemble lib env tenant user u s).1.uploads
          ≡ update (λ (r : FileUpload). r.id == u.id) (end_row env.now) s.uploads)
unfolding assemble
assemble-uploads lib env tenant user u s =
    elim (Option-cases (read_chunks env u.id u.total_chunks 0 s.staging)) [
      | inl e ↦ inl (ground (arith, e))
      | inr (content, e) ↦
          let saved = save lib.storage_path lib.copied env u.file_id (some content) s.storage in
          elim (Option-cases saved.0) [
            | inl f ↦ inl (ground (arith, e, f))
            | inr (path, f) ↦ ground (
              arith,
              e,
              f,
              accept_digest-uploads lib env tenant user u path (lib.sha256 content)
                  (record s { storage = saved.1 }),
            )
          ]
    ]

pub complete-uploads :
    (lib : Library) (env : Env) (tenant user id : String) (s : Files)
    → ((complete lib env tenant user id s).1.uploads ≡ s.uploads)
      ⊎ ((u : FileUpload) × (find (is_open_upload id tenant) s.uploads ≡ some u)
          × ((complete lib env tenant user id s).1.uploads
              ≡ update (λ (r : FileUpload). r.id == u.id) (end_row env.now) s.uploads))
unfolding complete
complete-uploads lib env tenant user id s =
    elim (Option-cases (find (is_open_upload id tenant) s.uploads)) [
      | inl e ↦ inl (ground (arith, e))
      | inr (u, e) ↦ elim (Bool-cases (env.fault select_upload)) [
        | inl f ↦ inl (ground (arith, f))
        | inr f ↦ elim (Bool-cases (eqb (length u.uploaded_chunks) u.total_chunks)) [
          | inl g ↦ elim (assemble-uploads lib env tenant user u s) [
            | inl same ↦ inl (ground (arith, e, f, g, same))
            | inr h ↦ inr (u, e, ground (arith, e, f, g, h))
          ]
          | inr g ↦ inl (ground (arith, e, f, g))
        ]
      ]
    ]
