-- ===== src/Api/Files/Chunks.antt =====
-- The sessions of server/api/files.go over a history of requests.
use moebius.Prelude.{
  ℕ, ◌<◌, String, ◌≡◌, ◌⊎◌, refl, inl, inr, true, false, ◌==◌, Option, some, List, [], ◌∷◌, ◌++◌,
  arith, map, contains, find, update, delete, All, All-append, All-update, All-select, find-true,
  eq_iff,
}
use moebius.Prelude.Int.{ℤ}
use moebius.Prelude.Keys.{
  Distinct, update-found-All, Distinct-append, Distinct-update, Distinct-select,
}
use moebius.Models.Files.{Bytes, FileUpload}
use moebius.Database.{Env}
use moebius.Quota.{Defaults}
use moebius.Api.Files.{Library, Files, is_open_upload, chunk_row, upload_chunk}
use moebius.Api.Files.Initiate.{InitiateUploadRequest, initiate_upload}
use moebius.Api.Files.Complete.{complete}
use moebius.Api.Files.Serve.{delete_file_handler, delete_rows}
use moebius.Api.Files.Indices.{NoRepeat, record_chunk-NoRepeat, record_chunk-bounded}
use moebius.Api.Files.Effects.{
  initiate_upload-uploads, upload_chunk-uploads, complete-uploads, end_row,
}

-- The requests that change files, by a user of a tenant.
pub data Request : Type 0 where
  initiating : Option InitiateUploadRequest → Request
  sending : (id : String) → Option ℤ → (hash : String) → Option Bytes → Request
  completing : (id : String) → Request
  removing : (file_id : String) → Request

pub record Incoming : Type 0 where
  pub env : Env
  pub tenant : String
  pub user : String
  pub request : Request

unfoldable pub handle : Option Defaults → Library → Incoming → Files → Files
handle quota lib c s = elim c.request [
  | initiating req ↦ (initiate_upload quota c.env c.tenant c.user req s).1
  | sending id index hash body ↦ (upload_chunk lib c.env c.tenant id index hash body s).1
  | completing id ↦ (complete lib c.env c.tenant c.user id s).1
  | removing id ↦ (delete_file_handler lib c.env c.tenant c.user id s).1
]

unfoldable pub run : Option Defaults → Library → List Incoming → Files → Files
run quota lib [] s = s
run quota lib (c ∷ cs) s = run quota lib cs (handle quota lib c s)

-- Each index is recorded once, and is one of the file's.
abbrev pub IsChunked : FileUpload → Type 0
IsChunked u = NoRepeat u.uploaded_chunks × All (λ i. i < u.total_chunks) u.uploaded_chunks

abbrev upload_id : FileUpload → String
upload_id u = u.id

abbrev pub AreChunked : List FileUpload → Type 0
AreChunked us = Distinct upload_id us × All IsChunked us

is_open_upload-id :
    (id tenant : String) (u : FileUpload) → is_open_upload id tenant u ≡ true → u.id ≡ id
is_open_upload-id id tenant u h = ground (arith, h, eq_iff u.id id)

found-id :
    (id tenant : String) (us : List FileUpload) (u : FileUpload)
    → find (is_open_upload id tenant) us ≡ some u
    → u.id ≡ id
found-id id tenant us u e =
    is_open_upload-id id tenant u (find-true (is_open_upload id tenant) us e)

insert-AreChunked :
    (u : FileUpload) (us : List FileUpload)
    → u.uploaded_chunks ≡ []
    → contains u.id (map upload_id us) ≡ false
    → AreChunked us
    → AreChunked (us ++ u ∷ [])
insert-AreChunked u us e c h =
    (Distinct-append upload_id us u h.0 c, All-append IsChunked us (u ∷ []) h.1 (rw e (tt, tt), tt))

chunk-AreChunked :
    (now i : ℕ) (id tenant : String) (us : List FileUpload) (u : FileUpload)
    → find (is_open_upload id tenant) us ≡ some u
    → i < u.total_chunks
    → AreChunked us
    → AreChunked (update (λ (r : FileUpload). r.id == u.id) (chunk_row now i) us)
chunk-AreChunked now i id tenant us u e lt h = (
  Distinct-update upload_id _ (chunk_row now i) us (λ r. refl) h.0,
  update-found-All upload_id IsChunked u.id (is_open_upload id tenant) (chunk_row now i) us
      (λ r p. ground (arith, is_open_upload-id id tenant r p, found-id id tenant us u e)) h.0 e
      (λ c. (
        record_chunk-NoRepeat i u.uploaded_chunks c.0,
        record_chunk-bounded u.total_chunks i u.uploaded_chunks lt c.1,
      ))
      h.1,
)

end-AreChunked :
    (now : ℕ) (id : String) (us : List FileUpload)
    → AreChunked us
    → AreChunked (update (λ (r : FileUpload). r.id == id) (end_row now) us)
end-AreChunked now id us h = (
  Distinct-update upload_id _ (end_row now) us (λ r. refl) h.0,
  All-update IsChunked _ (end_row now) us (λ r p c. c) h.1,
)

delete_file_handler-uploads :
    (lib : Library) (env : Env) (tenant user id : String) (s : Files)
    → ((delete_file_handler lib env tenant user id s).1.uploads ≡ s.uploads)
      ⊎ ((delete_file_handler lib env tenant user id s).1.uploads
          ≡ delete (λ (u : FileUpload). u.file_id == id) s.uploads)
unfolding delete_file_handler delete_rows
delete_file_handler-uploads lib env tenant user id s = ground arith

handle-AreChunked :
    (quota : Option Defaults) (lib : Library) (c : Incoming) (s : Files)
    → AreChunked s.uploads
    → AreChunked (handle quota lib c s).uploads
unfolding handle delete
handle-AreChunked quota lib c s h =
    elim c.request as (λ r. AreChunked (handle quota lib (record c { request = r }) s).uploads) [
      | initiating req ↦ elim (initiate_upload-uploads quota c.env c.tenant c.user req s) [
        | inl e ↦ rw e h
        | inr (u, z, n, e) ↦ rw e (insert-AreChunked u s.uploads z n h)
      ]
      | sending id index hash body ↦
          elim (upload_chunk-uploads lib c.env c.tenant id index hash body s) [
            | inl e ↦ rw e h
            | inr (u, i, f, lt, e) ↦
                rw e (chunk-AreChunked c.env.now i id c.tenant s.uploads u f lt h)
          ]
      | completing id ↦ elim (complete-uploads lib c.env c.tenant c.user id s) [
        | inl e ↦ rw e h
        | inr (u, f, e) ↦ rw e (end-AreChunked c.env.now u.id s.uploads h)
      ]
      | removing id ↦ elim (delete_file_handler-uploads lib c.env c.tenant c.user id s) [
        | inl e ↦ rw e h
        | inr e ↦
            rw e (Distinct-select upload_id _ s.uploads h.0, All-select IsChunked _ s.uploads h.1)
      ]
    ]

-- Whatever requests are handled, with whatever errors, in every upload session no chunk index is
-- recorded twice, each recorded index is one of the file's chunks, and session ids stay distinct.
pub run-AreChunked :
    (quota : Option Defaults) (lib : Library) (cs : List Incoming) (s : Files)
    → AreChunked s.uploads
    → AreChunked (run quota lib cs s).uploads
unfolding run
run-AreChunked quota lib [] s h = h
run-AreChunked quota lib (c ∷ cs) s h =
    run-AreChunked quota lib cs (handle quota lib c s) (handle-AreChunked quota lib c s h)
