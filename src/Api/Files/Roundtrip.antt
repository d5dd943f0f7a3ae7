-- ===== src/Api/Files/Roundtrip.antt =====
-- A whole upload through server/api/files.go and the bytes that are served afterwards.
use moebius.Prelude.{
  String, ◌≡◌, ◌≤◌, ◌+◌, ap, sym, ◌∙◌, true, false, ◌==◌, ltb, none, some, List, [], arith, length,
  find, All, contains,
}
use moebius.Models.Files.{Bytes, File, FileRow, FileUpload}
use moebius.Database.{
  Env, select_upload, load_signature, select_hash, create_file, copy_early, copy_file, open_file,
}
use moebius.Storage.{Stored, save}
use moebius.Api.Respond.{reply}
use moebius.Api.Files.{Library, Files, is_open_upload, default_chunk_size}
use moebius.Api.Files.Complete.{
  complete, assemble, accept_digest, finish_upload, read_chunks, has_row, verify_file_signature,
  checked, describe,
}
use moebius.Api.Files.Serve.{serve_file_data}
use moebius.Api.Files.Assembly.{assemble-replies, serve-find}
use moebius.Api.Files.Sending.{IsFaultless, concat, send_all, send_all-Sent}

unsigned-checked :
    (lib : Library) (env : Env) (tenant id : String) (digest : Bytes) (s : Files) (f : FileRow)
    → IsFaultless env
    → find (has_row id tenant) s.files ≡ some f
    → f.signature ≡ none
    → verify_file_signature lib env tenant id digest s ≡ checked false
unfolding verify_file_signature
unsigned-checked lib env tenant id digest s f ok own unsigned =
    ground (arith, ok load_signature, own, unsigned)

accept_digest-unsigned :
    (lib : Library) (env : Env) (tenant user : String) (u : FileUpload) (path : String)
    (digest : Bytes) (s : Files) (f : FileRow)
    → IsFaultless env
    → find (λ (r : FileRow). r.id == u.file_id) s.files ≡ some f
    → find (has_row u.file_id tenant) s.files ≡ some f
    → f.signature ≡ none
    → (lib.hex digest == f.sha256) ≡ true
    → (accept_digest lib env tenant user u path digest s).0
      ≡ reply 200 (describe env u.file_id (finish_upload env tenant user u path false s).files)
unfolding accept_digest
accept_digest-unsigned lib env tenant user u path digest s f ok row own unsigned hash = ground (
  arith,
  ok select_hash,
  row,
  hash,
  unsigned-checked lib env tenant u.file_id digest s f ok own unsigned,
)

save-faultless :
    (path : String → String) (copied : Env → Bytes) (env : Env) (key : String) (content : Bytes)
    (files : List Stored)
    → IsFaultless env
    → (save path copied env key (some content) files).0 ≡ some (path key)
unfolding save
save-faultless path copied env key content files ok =
    ground (arith, ok create_file, ok copy_early, ok copy_file)

assemble-unsigned :
    (lib : Library) (env : Env) (tenant user : String) (u : FileUpload) (s : Files) (f : FileRow)
    (content : Bytes)
    → IsFaultless env
    → read_chunks env u.id u.total_chunks 0 s.staging ≡ some content
    → find (λ (r : FileRow). r.id == u.file_id) s.files ≡ some f
    → find (has_row u.file_id tenant) s.files ≡ some f
    → f.signature ≡ none
    → (lib.hex (lib.sha256 content) == f.sha256) ≡ true
    → (r : File) × ((assemble lib env tenant user u s).0 ≡ some (reply 200 r))
unfolding assemble
assemble-unsigned lib env tenant user u s f content ok chunks row own unsigned hash =
    let saved = save lib.storage_path lib.copied env u.file_id (some content) s.storage in
    let path = lib.storage_path u.file_id in
    let s' : Files = record s { storage = saved.1 } in
    (
      describe env u.file_id (finish_upload env tenant user u path false s').files,
      ground (
        arith,
        chunks,
        ok create_file,
        ok copy_early,
        save-faultless lib.storage_path lib.copied env u.file_id content s.storage ok,
        accept_digest-unsigned lib env tenant user u path (lib.sha256 content) s' f ok row own
            unsigned hash,
      ),
    )

-- From a session that holds every chunk on, without errors and without a signature.
finished :
    (lib : Library) (env : Env) (tenant user id : String) (s : Files) (u : FileUpload) (f : FileRow)
    (content : Bytes)
    → IsFaultless env
    → find (is_open_upload id tenant) s.uploads ≡ some u
    → length u.uploaded_chunks ≡ u.total_chunks
    → read_chunks env u.id u.total_chunks 0 s.staging ≡ some content
    → find (λ (r : FileRow). r.id == u.file_id) s.files ≡ some f
    → find (has_row u.file_id tenant) s.files ≡ some f
    → f.signature ≡ none
    → (lib.hex (lib.sha256 content) == f.sha256) ≡ true
    → (r : File) × ((complete lib env tenant user id s).0 ≡ some (reply 200 r))
      × (serve_file_data env u.file_id (complete lib env tenant user id s).1 ≡ reply 200 content)
unfolding complete
finished lib env tenant user id s u f content ok open_row full chunks row own unsigned hash =
    let (r, h) =
      assemble-unsigned lib env tenant user u s f content ok chunks row own unsigned hash in
    let (c, e, _, st) = assemble-replies lib env tenant user u s r h in
    let same : (complete lib env tenant user id s) ≡ (assemble lib env tenant user u s) =
      ground (arith, ok select_upload, open_row, full) in
    let k : c ≡ content = ground (arith, e, chunks) in
    (
      r,
      ap (λ p. p.0) same ∙ h,
      ap (λ p. serve_file_data env u.file_id p.1) same
          ∙ serve-find env u.file_id (assemble lib env tenant user u s).1 c (ok open_file) st
          ∙ ap (reply 200) k,
    )

-- Where no call reports an error: for an open session that has not expired, has its staging
-- directory and has recorded nothing yet, of a file without a signature, uploading the bodies of all its chunks in order, each within the
-- size of a chunk, and then completing the upload is answered with 200, provided the declared hash
-- is that of the bodies' concatenation, and that concatenation is what is served for the file.
pub send_all-complete :
    (lib : Library) (env : Env) (tenant user id : String) (bodies : List Bytes) (s : Files)
    (u : FileUpload) (f : FileRow)
    → IsFaultless env
    → find (is_open_upload id tenant) s.uploads ≡ some u
    → ltb u.expires_at env.now ≡ false
    → u.uploaded_chunks ≡ []
    → contains u.id s.stage_dirs ≡ true
    → u.total_chunks ≡ length bodies
    → All (λ b. length b ≤ default_chunk_size + 1) bodies
    → find (λ (r : FileRow). r.id == u.file_id) s.files ≡ some f
    → find (has_row u.file_id tenant) s.files ≡ some f
    → f.signature ≡ none
    → (lib.hex (lib.sha256 (concat bodies)) == f.sha256) ≡ true
    → (r : File) × ((complete lib env tenant user id (send_all lib env tenant id 0 bodies s)).0
        ≡ some (reply 200 r))
      × (serve_file_data env u.file_id
            (complete lib env tenant user id (send_all lib env tenant id 0 bodies s)).1
          ≡ reply 200 (concat bodies))
send_all-complete lib env tenant user id bodies s u f ok open_row fresh none_yet dir total sizes row
      own unsigned hash =
    let (v, at, same, kept, chunks, _) =
      send_all-Sent lib env tenant id 0 bodies s u ok
        (open_row, fresh, rw none_yet tt, ap length none_yet) (omega (arith, total)) sizes dir in
    let s' = send_all lib env tenant id 0 bodies s in
    let files = kept.0 in
    rw (sym same.1) (
      finished lib env tenant user id s' v f (concat bodies) ok at.0
        (omega (arith, at.3, same.2, total)) (rw (same.0, same.2, total) chunks)
        (rw (same.1, files) row) (rw (same.1, files) own) unsigned hash)
