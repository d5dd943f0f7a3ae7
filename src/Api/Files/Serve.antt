-- ===== src/Api/Files/Serve.antt =====
-- server/api/files.go: GetFile, DeleteFile, Download and ServeFileData. The URL of the local
-- backend needs no call that can fail.
use Prim.Native.String.{◌++◌ as text_append}
use moebius.Prelude.{
  ℕ, ◌+◌, ◌*◌, String, Bool, true, false, not, ◌&&◌, ◌==◌, Option, none, some, [], find, delete,
  count, ltb, if◌then◌else◌,
}
use moebius.Models.Files.{Bytes, FileRow, File, FileUpload}
use moebius.Models.Job.{
  Job, file_transfer, second, completed, failed, timed_out, cancelled, eq_status,
}
use moebius.Database.{Env, select_file, count_transfers, delete_file, log_action}
use moebius.Storage.{remove, open_stored}
use moebius.Api.Respond.{Response, reply, error, error_status}
use moebius.Api.Files.{Library, Files, default_chunk_size}
use moebius.Api.Files.Initiate.{total_chunks_of}
use moebius.Api.Files.Complete.{has_row, scan_file}

abbrev pub find_file : Env → String → String → Files → Option FileRow
find_file env tenant id s = if env.fault select_file then none else find (has_row id tenant) s.files

-- GET /v1/files/{file_id}
unfoldable pub get_file : Env → String → String → Files → Response File
unfolding error_status find scan_file
get_file env tenant id s = elim (find_file env tenant id s) [
  | none ↦ error_status 404
  | some r ↦ if (scan_file r).1 then reply 200 (scan_file r).0 else error_status 404
]

abbrev is_file_transfer : Job → Bool
is_file_transfer j = elim j.kind [ file_transfer ↦ true | _ ↦ false ]

-- A file_transfer job of the tenant that has not ended and whose payload names the file.
unfoldable pub uses_file : Library → String → String → Job → Bool
uses_file lib tenant id j =
    j.tenant_id == tenant
    && is_file_transfer j
    && not (eq_status j.status completed)
    && not (eq_status j.status failed)
    && not (eq_status j.status timed_out)
    && not (eq_status j.status cancelled)
    && elim (lib.payload_file_id j.payload) [ none ↦ false | some f ↦ f == id ]

-- COUNT(*), whose error leaves 0.
abbrev pub active_jobs : Library → Env → String → String → Files → ℕ
active_jobs lib env tenant id s =
    if env.fault count_transfers then 0 else count (uses_file lib tenant id) s.db.jobs

-- The row, its uploads (ON DELETE CASCADE), and the stored file if there is a
-- path; an error of removing it is ignored.
unfoldable pub delete_rows : Env → String → String → FileRow → String → Files → Files
unfolding delete remove
delete_rows env tenant user r id s = record s {
  files = delete (has_row id tenant) s.files;
  uploads = delete (λ (u : FileUpload). u.file_id == id) s.uploads;
  storage = if r.storage_path == "" then s.storage else (remove env id s.storage).1;
  db = log_action env tenant user "user" "file.delete" "file" id [] s.db;
}

-- DELETE /v1/files/{file_id}
unfoldable pub delete_file_handler :
    Library → Env → String → String → String → Files → Response (Unit {0}) × Files
unfolding error_status find count uses_file
delete_file_handler lib env tenant user id s =
    if ltb 0 (active_jobs lib env tenant id s)
    then (error 409 "file_in_use", s)
    else elim (find_file env tenant id s) [
      | none ↦ (error_status 404, s)
      | some r ↦
          if env.fault delete_file
          then (error_status 500, s)
          else (reply 204 tt, delete_rows env tenant user r id s)
    ]

pub record FileDownloadResponse : Type 0 where
  pub url : String
  pub size_bytes : ℕ
  pub chunk_size_bytes : ℕ
  pub total_chunks : ℕ
  pub sha256 : String
  pub signature : String
  pub signature_key_id : String
  pub expires_at : ℕ

abbrev pub download_response : Env → File → FileDownloadResponse
download_response env f = record {
  url = text_append "/v1/files/data/" f.id;
  size_bytes = f.size_bytes;
  chunk_size_bytes = default_chunk_size;
  total_chunks = total_chunks_of f.size_bytes;
  sha256 = f.sha256;
  signature = f.signature;
  signature_key_id = f.signature_key_id;
  expires_at = env.now + 5 * (60 * second);
}

-- GET /v1/files/{file_id}/download
unfoldable pub download : Env → String → String → Files → Response FileDownloadResponse
unfolding error_status find scan_file total_chunks_of
download env tenant id s = elim (find_file env tenant id s) [
  | none ↦ error_status 404
  | some r ↦
      let f : File = (scan_file r).0 in
      if not (scan_file r).1
      then error_status 404
      else if not (f.signature == "") && not f.signature_verified
      then error 409 "signature_unverified"
      else reply 200 (download_response env f)
]

-- GET /v1/files/data/{file_id}; ranges are left to http.ServeContent.
unfoldable pub serve_file_data : Env → String → Files → Response Bytes
unfolding error_status open_stored
serve_file_data env id s = elim (open_stored env id s.storage) [
  | none ↦ error_status 404
  | some content ↦ reply 200 content
]
