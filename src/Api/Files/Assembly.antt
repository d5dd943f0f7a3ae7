-- ===== src/Api/Files/Assembly.antt =====
-- What CompleteUpload of server/api/files.go has stored where it succeeds.
use moebius.Prelude.{
  String, ◌≡◌, refl, ap, ◌∙◌, inl, inr, Bool, true, false, ◌==◌, eq_refl, some, List, arith, length,
  find, find-All, Option-cases,
}
use moebius.Models.Files.{Bytes, File, FileUpload}
use moebius.Database.{Env, open_file}
use moebius.Storage.{Stored, has_key, save, open_stored}
use moebius.Api.Respond.{reply, error_status}
use moebius.Api.Files.{Library, Files, is_open_upload}
use moebius.Api.Files.Complete.{
  complete, assemble, accept_digest, finish_upload, read_chunks, expected_hash,
}
use moebius.Api.Files.Serve.{serve_file_data}
use moebius.Api.Files.Indices.{has_all, full-has_all}
use moebius.Api.Files.Chunks.{AreChunked, IsChunked}

finish_upload-storage :
    (env : Env) (tenant user : String) (u : FileUpload) (path : String) (verified : Bool)
    (s : Files)
    → (finish_upload env tenant user u path verified s).storage ≡ s.storage
unfolding finish_upload
finish_upload-storage env tenant user u path verified s = refl

accept_digest-replies :
    (lib : Library) (env : Env) (tenant user : String) (u : FileUpload) (path : String)
    (digest : Bytes) (s : Files) (f : File)
    → (accept_digest lib env tenant user u path digest s).0 ≡ reply 200 f
    → ((lib.hex digest == expected_hash env u.file_id s.files) ≡ true)
      × ((accept_digest lib env tenant user u path digest s).1.storage ≡ s.storage)
unfolding accept_digest error_status
accept_digest-replies lib env tenant user u path digest s f h = (
  ground (arith, h),
  ground (
    arith,
    h,
    finish_upload-storage env tenant user u path true s,
    finish_upload-storage env tenant user u path false s,
  ),
)

pub save-find :
    (path : String → String) (copied : Env → Bytes) (env : Env) (key : String) (content : Bytes)
    (files : List Stored) {p : String}
    → (save path copied env key (some content) files).0 ≡ some p
    → find (has_key key) (save path copied env key (some content) files).1
      ≡ some (record { key = key; content = content })
unfolding save find
save-find path copied env key content files {p} h = ground (arith, h, eq_refl key)

pub serve-find :
    (env : Env) (id : String) (s : Files) (content : Bytes)
    → env.fault open_file ≡ false
    → find (has_key id) s.storage ≡ some (record { key = id; content = content })
    → serve_file_data env id s ≡ reply 200 content
unfolding serve_file_data open_stored
serve-find env id s content o e = ground (arith, o, e)

pub assemble-replies :
    (lib : Library) (env : Env) (tenant user : String) (u : FileUpload) (s : Files) (f : File)
    → (assemble lib env tenant user u s).0 ≡ some (reply 200 f)
    → (content : Bytes) × (read_chunks env u.id u.total_chunks 0 s.staging ≡ some content)
      × ((lib.hex (lib.sha256 content) == expected_hash env u.file_id s.files) ≡ true)
      × (find (has_key u.file_id) (assemble lib env tenant user u s).1.storage
          ≡ some (record { key = u.file_id; content = content }))
unfolding assemble error_status
assemble-replies lib env tenant user u s f h =
    elim (Option-cases (read_chunks env u.id u.total_chunks 0 s.staging)) [
      | inl e ↦ absurd (ground (arith, h, e))
      | inr (content, e) ↦
          let saved = save lib.storage_path lib.copied env u.file_id (some content) s.storage in
          elim (Option-cases saved.0) [
            | inl g ↦ absurd (ground (arith, h, e, g))
            | inr (path, g) ↦
                let a =
                  accept_digest-replies lib env tenant user u path (lib.sha256 content)
                    (record s { storage = saved.1 }) f (ground (arith, h, e, g)) in
                let w : (assemble lib env tenant user u s).1.storage ≡ saved.1 =
                  ground (arith, e, g, a.1) in
                (
                  content,
                  e,
                  a.0,
                  ap (find (has_key u.file_id)) w
                      ∙ save-find lib.storage_path lib.copied env u.file_id content s.storage g,
                )
          ]
    ]

-- Where a request to complete an upload is answered with 200: there is an open session of that id
-- and tenant in which every chunk index of the file is recorded; all its chunks were read, in the order of
-- their indices; the hash of their concatenation is the declared one; and that concatenation
-- is what the data endpoint then serves under the file's id, unless opening it fails.
pub complete-stores :
    (lib : Library) (env later : Env) (tenant user id : String) (s : Files) (f : File)
    → AreChunked s.uploads
    → later.fault open_file ≡ false
    → (complete lib env tenant user id s).0 ≡ some (reply 200 f)
    → (u : FileUpload) × (content : Bytes) × (find (is_open_upload id tenant) s.uploads ≡ some u)
      × (has_all u.total_chunks u.uploaded_chunks ≡ true)
      × (read_chunks env u.id u.total_chunks 0 s.staging ≡ some content)
      × ((lib.hex (lib.sha256 content) == expected_hash env u.file_id s.files) ≡ true)
      × (serve_file_data later u.file_id (complete lib env tenant user id s).1 ≡ reply 200 content)
unfolding complete error_status
complete-stores lib env later tenant user id s f chunked opens h =
    elim (Option-cases (find (is_open_upload id tenant) s.uploads)) [
      | inl e ↦ absurd (ground (arith, h, e))
      | inr (u, e) ↦
          let full : length u.uploaded_chunks ≡ u.total_chunks = ground (arith, h, e) in
          let c : IsChunked u = find-All IsChunked _ s.uploads chunked.1 e in
          let a = assemble-replies lib env tenant user u s f (ground (arith, h, e)) in
          let same : (complete lib env tenant user id s).1 ≡ (assemble lib env tenant user u s).1 =
            ground (arith, h, e) in
          (
            u,
            a.0,
            e,
            full-has_all u.total_chunks u.uploaded_chunks c.0 c.1 full,
            a.1,
            a.2,
            rw same (serve-find later u.file_id (assemble lib env tenant user u s).1 a.0 opens a.3),
          )
    ]
