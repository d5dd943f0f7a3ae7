-- ===== src/Tests/Uploads.antt =====
-- The theorems about files, on a file of two chunks and on a signed one.
use moebius.Prelude.{
  ℕ, ◌≡◌, refl, true, false, ◌==◌, none, some, List, [], ◌∷◌, find, contains, arith, update,
}
use moebius.Prelude.Int.{pos}
use moebius.Models.Files.{Bytes, File, FileRow, FileUpload}
use moebius.Storage.{save}
use moebius.Api.Respond.{reply}
use moebius.Api.Files.{Library, Files, ed25519, is_open_upload}
use moebius.Api.Files.Complete.{
  complete, assemble, accept_digest, read_chunks, scan_file, verify_file_signature, finish_upload,
  expected_hash, has_row,
}
use moebius.Api.Files.Serve.{serve_file_data}
use moebius.Api.Files.Indices.{has_all}
use moebius.Api.Files.Chunks.{Incoming, sending, run, AreChunked, run-AreChunked}
use moebius.Api.Files.Assembly.{complete-stores}
use moebius.Api.Files.Sending.{send_all}
use moebius.Api.Files.Roundtrip.{send_all-complete}
use moebius.Tests.{env_at, db_a}

-- Hashing and signing are the identity here.
abbrev pub library : Library
library = record {
  sha256 = λ b. b;
  hex = λ b. "hash";
  pem_decode = λ s. some [];
  parse_pkix = λ b. some (ed25519 b);
  decode_base64 = λ s. some [];
  ed25519_verify = λ k d s. true;
  storage_path = λ key. key;
  copied = λ env. [];
  payload_file_id = λ p. none;
}

abbrev pub row_a : FileRow
row_a = record {
  id = "fil_a";
  tenant_id = "ten_a";
  filename = "a.bin";
  size_bytes = 6000000;
  sha256 = "hash";
  signature = none;
  signature_key_id = none;
  signature_verified = false;
  mime_type = "";
  storage_backend = "local";
  storage_path = "";
  created_by = "usr_a";
  created_at = 1;
}

abbrev session_a : FileUpload
session_a = record {
  id = "upl_a";
  file_id = "fil_a";
  tenant_id = "ten_a";
  chunk_size_bytes = 5242880;
  total_chunks = 2;
  uploaded_chunks = [];
  completed_at = none;
  expires_at = 100;
  created_at = 1;
}

abbrev pub files_a : Files
files_a = record {
  db = db_a;
  files = row_a ∷ [];
  uploads = session_a ∷ [];
  signing_keys = [];
  stage_dirs = "upl_a" ∷ [];
  staging = [];
  storage = [];
}

abbrev bodies : List Bytes
bodies = (1 ∷ 2 ∷ []) ∷ (3 ∷ []) ∷ []

has_dir : contains session_a.id files_a.stage_dirs ≡ true
unfolding contains
has_dir = refl

open_a : find (is_open_upload "upl_a" "ten_a") files_a.uploads ≡ some session_a
unfolding find
open_a = refl

declared_a : find (λ (r : FileRow). r.id == session_a.file_id) files_a.files ≡ some row_a
unfolding find
declared_a = refl

own_a : find (has_row session_a.file_id "ten_a") files_a.files ≡ some row_a
unfolding find
own_a = refl

send_all-complete_example :
    (r : File) × ((complete library
        (env_at 5)
        "ten_a"
        "usr_a"
        "upl_a"
        (send_all library (env_at 5) "ten_a" "upl_a" 0 bodies files_a)).0
      ≡ some (reply 200 r))
    × (serve_file_data
          (env_at 5)
          "fil_a"
          (complete library
            (env_at 5)
            "ten_a"
            "usr_a"
            "upl_a"
            (send_all library (env_at 5) "ten_a" "upl_a" 0 bodies files_a)).1
        ≡ reply 200 (1 ∷ 2 ∷ 3 ∷ []))
send_all-complete_example =
    send_all-complete library (env_at 5) "ten_a" "usr_a" "upl_a" bodies files_a session_a row_a
      (λ c. refl) open_a refl refl has_dir refl (omega arith, (omega arith, tt)) declared_a own_a
      refl refl

chunked_a : AreChunked files_a.uploads
unfolding contains
chunked_a = ((refl, tt), ((tt, tt), tt))

abbrev sent : ℕ → Bytes → Incoming
sent i body = record {
  env = env_at 5;
  tenant = "ten_a";
  user = "usr_a";
  request = sending "upl_a" (some (pos i)) "" (some body);
}

run-AreChunked_example :
    AreChunked
      (run none library (sent 1 (3 ∷ []) ∷ sent 1 (4 ∷ []) ∷ sent 0 (1 ∷ []) ∷ []) files_a).uploads
run-AreChunked_example =
    run-AreChunked none library (sent 1 (3 ∷ []) ∷ sent 1 (4 ∷ []) ∷ sent 0 (1 ∷ []) ∷ []) files_a
      chunked_a

-- Both chunks are there.
abbrev full_a : FileUpload
full_a = record session_a { uploaded_chunks = 1 ∷ 0 ∷ [] }

abbrev pub staged_a : Files
staged_a = record files_a {
  uploads = full_a ∷ [];
  staging =
      record { upload_id = "upl_a"; index = 1; content = 3 ∷ [] }
      ∷ record { upload_id = "upl_a"; index = 0; content = 1 ∷ 2 ∷ [] }
      ∷ [];
}

abbrev file_a : File
file_a = record {
  id = "fil_a";
  tenant_id = "ten_a";
  filename = "a.bin";
  size_bytes = 6000000;
  sha256 = "hash";
  signature = "";
  signature_key_id = "";
  signature_verified = false;
  mime_type = "";
  storage_backend = "";
  storage_path = "";
  created_by = "";
  created_at = 0;
}

completes_a :
    (complete library (env_at 5) "ten_a" "usr_a" "upl_a" staged_a).0 ≡ some (reply 200 file_a)
unfolding complete find assemble read_chunks save accept_digest verify_file_signature finish_upload
    update scan_file
completes_a = refl

chunked_full : AreChunked staged_a.uploads
unfolding contains
chunked_full =
    ((refl, tt), ((((λ e. omega (arith, e), tt), (tt, tt)), (omega arith, (omega arith, tt))), tt))

complete-stores_example :
    (u : FileUpload) × (content : Bytes) × (find (is_open_upload "upl_a" "ten_a") staged_a.uploads
      ≡ some u)
    × (has_all u.total_chunks u.uploaded_chunks ≡ true)
    × (read_chunks (env_at 5) u.id u.total_chunks 0 staged_a.staging ≡ some content)
    × ((library.hex (library.sha256 content) == expected_hash (env_at 5) u.file_id staged_a.files)
        ≡ true)
    × (serve_file_data
          (env_at 9)
          u.file_id
          (complete library (env_at 5) "ten_a" "usr_a" "upl_a" staged_a).1
        ≡ reply 200 content)
complete-stores_example =
    complete-stores library (env_at 5) (env_at 9) "ten_a" "usr_a" "upl_a" staged_a file_a
      chunked_full refl completes_a
