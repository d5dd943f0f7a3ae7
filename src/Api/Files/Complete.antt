-- ===== src/Api/Files/Complete.antt =====
-- server/api/files.go: CompleteUpload and verifyFileSignature.
use moebius.Prelude.{
  ℕ, zero, suc, String, Bool, true, false, not, ◌&&◌, ◌||◌, ◌==◌, Option, none, some, List, [],
  ◌++◌, ◌>>=◌, find, update, delete, length, eqb, ltb, is_some, if◌then◌else◌,
}
use moebius.Models.Files.{Bytes, FileRow, File, FileUpload, SigningKey}
use moebius.Database.{
  Env, load_signature, load_key, update_file, complete_upload, select_upload, select_hash,
  reread_file, read_chunk, log_action, remove_stage_dir,
}
use moebius.Storage.{stops_reading, save, remove}
use moebius.Api.Respond.{Response, reply, error, error_status}
use moebius.Api.Files.{Library, Files, Chunk, ed25519, other_key, is_open_upload, is_chunk}

-- What verifyFileSignature returns: a Boolean, errSignatureInvalid, or another error.
pub data Verification : Type 0 where
  checked : Bool → Verification
  invalid : Verification
  failed : Verification

unfoldable pub parse_ed25519_public_key_pem : Library → String → Option Bytes
parse_ed25519_public_key_pem lib pem = do
  block ← lib.pem_decode pem
  pub_key ← lib.parse_pkix block
  elim pub_key [ ed25519 key ↦ some key | other_key ↦ none ]

abbrev pub has_row : String → String → FileRow → Bool
has_row id tenant f = f.id == id && f.tenant_id == tenant

-- The signature against the registered key.
unfoldable pub check_signature : Library → String → String → Bytes → Verification
unfolding parse_ed25519_public_key_pem
check_signature lib pem sig digest = elim (parse_ed25519_public_key_pem lib pem) [
  | none ↦ failed
  | some key ↦ elim (lib.decode_base64 sig) [
    | none ↦ invalid
    | some raw ↦ if lib.ed25519_verify key digest raw then checked true else invalid
  ]
]

abbrev check_with :
    Library → Env → String → Option String → Option String → Bytes → List SigningKey → Verification
check_with lib env tenant none key digest keys = checked false
check_with lib env tenant (some sig) none digest keys = checked false
check_with lib env tenant (some sig) (some key) digest keys =
    if sig == "" || key == ""
    then checked false
    else if env.fault load_key
    then failed
    else elim (find (λ (k : SigningKey). k.id == key && k.tenant_id == tenant) keys) [
      | none ↦ invalid
      | some k ↦ check_signature lib k.public_key sig digest
    ]

unfoldable pub verify_file_signature :
    Library → Env → String → String → Bytes → Files → Verification
unfolding find check_signature
verify_file_signature lib env tenant id digest s =
    if env.fault load_signature then failed else elim (find (has_row id tenant) s.files) [
      | none ↦ failed
      | some f ↦ check_with lib env tenant f.signature f.signature_key_id digest s.signing_keys
    ]

-- The chunks i, i + 1, …, read and joined; `none` where one cannot be read.
unfoldable pub read_chunks : Env → String → (count from : ℕ) → List Chunk → Option Bytes
unfolding find
read_chunks env upload zero i staging = some []
read_chunks env upload (suc n) i staging =
    let rest = read_chunks env upload n (suc i) staging in
    if env.fault (read_chunk i)
    then none
    else do c ← find (is_chunk upload i) staging; more ← rest; some (c.content ++ more)

-- Scan into models.File: the columns are assigned in order, until a NULL meets a Go text.
unfoldable pub scan_file : FileRow → File × Bool
scan_file r =
    let head : File = record {
      id = r.id;
      tenant_id = r.tenant_id;
      filename = r.filename;
      size_bytes = r.size_bytes;
      sha256 = r.sha256;
      signature = "";
      signature_key_id = "";
      signature_verified = false;
      mime_type = "";
      storage_backend = "";
      storage_path = "";
      created_by = "";
      created_at = 0;
    } in
    elim r.signature [
      | none ↦ (head, false)
      | some sig ↦ elim r.signature_key_id [
        | none ↦ (record head { signature = sig }, false)
        | some key ↦ (
          record head {
            signature = sig;
            signature_key_id = key;
            signature_verified = r.signature_verified;
            mime_type = r.mime_type;
            storage_backend = r.storage_backend;
            storage_path = r.storage_path;
            created_by = r.created_by;
            created_at = r.created_at;
          },
          true,
        )
      ]
    ]

abbrev zero_file : File
zero_file = record {
  id = "";
  tenant_id = "";
  filename = "";
  size_bytes = 0;
  sha256 = "";
  signature = "";
  signature_key_id = "";
  signature_verified = false;
  mime_type = "";
  storage_backend = "";
  storage_path = "";
  created_by = "";
  created_at = 0;
}

-- The metadata that CompleteUpload answers with.
abbrev pub describe : Env → String → List FileRow → File
describe env id files =
    if env.fault reread_file then zero_file else elim (find (λ (f : FileRow). f.id == id) files) [
      | none ↦ zero_file
      | some f ↦ (scan_file f).0
    ]

-- The declared hash; its error is ignored.
abbrev pub expected_hash : Env → String → List FileRow → String
expected_hash env id files =
    if env.fault select_hash
    then ""
    else elim (find (λ (f : FileRow). f.id == id) files) [ none ↦ "" | some f ↦ f.sha256 ]

-- The two updates and the removal of the staging directory, whose errors are ignored, and the
-- audit entry.
unfoldable pub finish_upload : Env → String → String → FileUpload → String → Bool → Files → Files
unfolding update delete
finish_upload env tenant user u path verified s = record s {
  files =
      if env.fault update_file
      then s.files
      else update (λ (f : FileRow). f.id == u.file_id)
          (λ f. record f { storage_path = path; signature_verified = verified }) s.files;
  uploads =
      if env.fault complete_upload
      then s.uploads
      else update (λ (r : FileUpload). r.id == u.id) (λ r. record r { completed_at = some env.now })
          s.uploads;
  stage_dirs =
      if env.fault remove_stage_dir then s.stage_dirs else delete (λ d. d == u.id) s.stage_dirs;
  staging =
      if env.fault remove_stage_dir
      then s.staging
      else delete (λ (c : Chunk). c.upload_id == u.id) s.staging;
  db = log_action env tenant user "user" "file.upload" "file" u.file_id [] s.db;
}

-- From the digest of what was stored on.
unfoldable pub accept_digest :
    Library → Env → String → String → FileUpload → String → Bytes → Files → Response File × Files
unfolding error_status find remove scan_file verify_file_signature
accept_digest lib env tenant user u path digest s =
    let dropped : Files = record s { storage = (remove env u.file_id s.storage).1 } in
    if not (lib.hex digest == expected_hash env u.file_id s.files)
    then (error 400 "checksum_mismatch", dropped)
    else elim (verify_file_signature lib env tenant u.file_id digest s) [
      | invalid ↦ (error 400 "signature_invalid", dropped)
      | failed ↦ (error_status 500, dropped)
      | checked verified ↦
          let done : Files = finish_upload env tenant user u path verified s in
          (reply 200 (describe env u.file_id done.files), done)
    ]

-- pw.Write waits for a reader for good, from the first chunk on, where Save has stopped reading.
abbrev pub waits : Env → FileUpload → Files → Bool
waits env u s =
    stops_reading env && ltb 0 u.total_chunks && is_some (read_chunks env u.id 1 0 s.staging)

-- From the session on: the chunks are piped into the backend, which sees the error of a read. The
-- answer is `none` where the handler never answers.
unfoldable pub assemble :
    Library → Env → String → String → FileUpload → Files → Option (Response File) × Files
unfolding error_status save read_chunks
assemble lib env tenant user u s =
    let bytes = read_chunks env u.id u.total_chunks 0 s.staging in
    let saved = save lib.storage_path lib.copied env u.file_id bytes s.storage in
    let s' : Files = record s { storage = saved.1 } in
    if waits env u s then (none, s') else elim bytes [
      | none ↦ (some (error_status 500), s')
      | some content ↦ elim saved.0 [
        | none ↦ (some (error_status 500), s')
        | some path ↦
            let done = accept_digest lib env tenant user u path (lib.sha256 content) s' in
            (some done.0, done.1)
      ]
    ]

-- POST /v1/files/uploads/{upload_id}/complete
unfoldable pub complete :
    Library → Env → String → String → String → Files → Option (Response File) × Files
unfolding error_status find
complete lib env tenant user id s =
    if env.fault select_upload
    then (some (error_status 404), s)
    else elim (find (is_open_upload id tenant) s.uploads) [
      | none ↦ (some (error_status 404), s)
      | some u ↦
          if not (eqb (length u.uploaded_chunks) u.total_chunks)
          then (some (error 400 "incomplete_upload"), s)
          else assemble lib env tenant user u s
    ]
