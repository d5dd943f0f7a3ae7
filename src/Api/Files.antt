-- ===== src/Api/Files.antt =====
-- server/api/files.go: uploads in chunks and their assembly. The staging directory is a list of
-- chunks; SHA-256, Ed25519, PEM, PKIX, base64 and filepath.Join are parameters.
pub mod Initiate
pub mod Complete
pub mod Serve
pub mod Indices
pub mod Effects
pub mod Chunks
pub mod Assembly
pub mod Signed
pub mod Verified
pub mod Requests
pub mod Downloads
pub mod Sending
pub mod Roundtrip
use moebius.Prelude.{
  ℕ, zero, suc, ◌+◌, ◌-◌, ◌*◌, ◌/◌, String, Bool, true, false, not, ◌&&◌, ◌||◌, ◌==◌, Option, none,
  some, List, [], ◌∷◌, ◌++◌, ◌>>=◌, map, contains, find, update, delete, length, ltb, leb, eqb,
  if◌then◌else◌, is_none,
}
use moebius.Prelude.Int.{ℤ, pos, negsuc}
use moebius.Models.Device.{Tenant}
use moebius.Models.Files.{Bytes, FileRow, File, FileUpload, SigningKey}
use moebius.Models.Job.{second}
use moebius.Database.{
  Db, Env, Call, begin_tx, commit_tx, insert_file, insert_upload, write_chunk, update_chunks,
  reread_chunks, load_signature, load_key, update_file, complete_upload, select_upload, select_hash,
  reread_file, read_chunk, ref_ok, log_action,
}
use moebius.Quota.{Defaults, Verdict, allowed, exceeded, failure, check_file_size}
use moebius.Storage.{Stored, save, remove}
use moebius.Api.Respond.{Response, reply, error, error_status}

abbrev pub default_chunk_size : ℕ
default_chunk_size = 5 * 1024 * 1024

abbrev pub upload_expiry : ℕ
upload_expiry = 24 * (3600 * second)

-- What x509.ParsePKIXPublicKey returns.
pub data PublicKey : Type 0 where
  ed25519 : Bytes → PublicKey
  other_key : PublicKey

-- The functions of Go's library and of PostgreSQL that the handlers call.
pub record Library : Type 0 where
  pub sha256 : Bytes → Bytes
  pub hex : Bytes → String
  pub pem_decode : String → Option Bytes
  pub parse_pkix : Bytes → Option PublicKey
  pub decode_base64 : String → Option Bytes
  pub ed25519_verify : Bytes → Bytes → Bytes → Bool
  pub storage_path : String → String
  pub copied : Env → Bytes
  pub payload_file_id : String → Option String

-- A file of the staging directory: <upload_id>/<index>.
pub record Chunk : Type 0 where
  pub upload_id : String
  pub index : ℕ
  pub content : Bytes

-- The tables and directories that FilesHandler works on; stage_dirs are the uploads that have a
-- staging directory.
pub record Files : Type 0 where
  pub db : Db
  pub files : List FileRow
  pub uploads : List FileUpload
  pub signing_keys : List SigningKey
  pub stage_dirs : List String
  pub staging : List Chunk
  pub storage : List Stored

pub record ChunkResponse : Type 0 where
  pub chunk_index : ℕ
  pub received : Bool
  pub uploaded_chunks : List ℕ
  pub remaining_chunks : ℤ

abbrev pub sub_int : ℕ → ℕ → ℤ
sub_int a b = if leb b a then pos (a - b) else negsuc (b - a - 1)

-- WHERE id = $1 AND tenant_id = $2 AND completed_at IS NULL
abbrev pub is_open_upload : String → String → FileUpload → Bool
is_open_upload id tenant u = u.id == id && u.tenant_id == tenant && is_none u.completed_at

-- array_append(array_remove(uploaded_chunks, i), i)
unfoldable pub record_chunk : ℕ → List ℕ → List ℕ
unfolding delete
record_chunk i chunks = delete (λ j. eqb j i) chunks ++ i ∷ []

abbrev pub chunk_row : ℕ → ℕ → FileUpload → FileUpload
chunk_row now i u = record u {
  uploaded_chunks = record_chunk i u.uploaded_chunks;
  expires_at = now + upload_expiry;
}

abbrev pub is_chunk : String → ℕ → Chunk → Bool
is_chunk upload i c = c.upload_id == upload && eqb c.index i

-- os.WriteFile on a path of a staging directory that is there.
unfoldable pub stage : String → ℕ → Bytes → List Chunk → List Chunk
unfolding delete
stage upload i body staging =
    record { upload_id = upload; index = i; content = body } ∷ delete (is_chunk upload i) staging

-- The array that the handler answers with: read again, or the one of before where that fails.
abbrev reread : Env → String → List ℕ → List FileUpload → List ℕ
reread env id old uploads =
    if env.fault reread_chunks then old else elim (find (λ (r : FileUpload). r.id == id) uploads) [
      | none ↦ old
      | some r ↦ r.uploaded_chunks
    ]

-- From the checked body on: the chunk is staged, then recorded.
unfoldable pub store_chunk : Env → FileUpload → ℕ → Bytes → Files → Response ChunkResponse × Files
unfolding error_status find update stage record_chunk contains
store_chunk env u i body s =
    if env.fault write_chunk || not (contains u.id s.stage_dirs)
    then (error_status 500, s)
    else let staged : Files = record s { staging = stage u.id i body s.staging } in
      if env.fault update_chunks
      then (error_status 500, staged)
      else let uploads : List FileUpload =
          update (λ (r : FileUpload). r.id == u.id) (chunk_row env.now i) s.uploads in
        let chunks : List ℕ = reread env u.id u.uploaded_chunks uploads in
        (
          reply 200 (record {
            chunk_index = i;
            received = true;
            uploaded_chunks = chunks;
            remaining_chunks = sub_int u.total_chunks (length chunks);
          }),
          record staged { uploads = uploads },
        )

-- http.MaxBytesReader(w, r.Body, defaultChunkSize + 1), then the X-Chunk-SHA256 header.
abbrev receive_chunk :
    Library → Env → FileUpload → ℕ → String → Option Bytes → Files → Response ChunkResponse × Files
receive_chunk lib env u i expected_hash none s = (error_status 400, s)
receive_chunk lib env u i expected_hash (some body) s =
    if ltb (default_chunk_size + 1) (length body)
    then (error_status 400, s)
    else if not (expected_hash == "") && not (lib.hex (lib.sha256 body) == expected_hash)
    then (error 400 "checksum_mismatch", s)
    else store_chunk env u i body s

abbrev check_index :
    Library → Env → FileUpload → ℤ → String → Option Bytes → Files → Response ChunkResponse × Files
check_index lib env u (negsuc n) expected_hash body s = (error_status 400, s)
check_index lib env u (pos i) expected_hash body s =
    if leb u.total_chunks i
    then (error_status 400, s)
    else receive_chunk lib env u i expected_hash body s

-- PUT /v1/files/uploads/{upload_id}/chunks/{chunk_index}: the index is what strconv.Atoi
-- returns, the body what the network yields.
unfoldable pub upload_chunk :
    Library
    → Env
    → String
    → String
    → Option ℤ
    → String
    → Option Bytes
    → Files
    → Response ChunkResponse × Files
unfolding error_status find store_chunk
upload_chunk lib env tenant id none expected_hash body s = (error_status 400, s)
upload_chunk lib env tenant id (some index) expected_hash body s =
    if env.fault select_upload
    then (error_status 404, s)
    else elim (find (is_open_upload id tenant) s.uploads) [
      | none ↦ (error_status 404, s)
      | some u ↦
          if ltb u.expires_at env.now
          then (error_status 410, s)
          else check_index lib env u index expected_hash body s
    ]

pub record UploadStatusResponse : Type 0 where
  pub upload_id : String
  pub file_id : String
  pub total_chunks : ℕ
  pub uploaded_chunks : List ℕ
  pub expires_at : ℕ

-- GET /v1/files/uploads/{upload_id}
unfoldable pub upload_status : Env → String → String → Files → Response UploadStatusResponse
unfolding error_status find
upload_status env tenant id s =
    if env.fault select_upload
    then error_status 404
    else elim (find (is_open_upload id tenant) s.uploads) [
      | none ↦ error_status 404
      | some u ↦ reply 200 (record {
        upload_id = u.id;
        file_id = u.file_id;
        total_chunks = u.total_chunks;
        uploaded_chunks = u.uploaded_chunks;
        expires_at = u.expires_at;
      })
    ]
