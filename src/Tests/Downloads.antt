-- ===== src/Tests/Downloads.antt =====
-- The theorem about downloads, on a signed file whose upload is completed.
use moebius.Prelude.{All, ◌≡◌, refl, true, false, none, some, List, [], ◌∷◌, find, contains, update}
use moebius.Models.Files.{FileRow}
use moebius.Storage.{save, open_stored}
use moebius.Api.Respond.{reply}
use moebius.Api.Files.{Files}
use moebius.Api.Files.Initiate.{total_chunks_of}
use moebius.Api.Files.Complete.{
  complete, assemble, accept_digest, read_chunks, scan_file, verify_file_signature, check_signature,
  parse_ed25519_public_key_pem, finish_upload, has_row,
}
use moebius.Api.Files.Serve.{download, serve_file_data, FileDownloadResponse}
use moebius.Api.Files.Chunks.{handle, completing, Incoming, run}
use moebius.Api.Files.Signed.{is_genuine, is_signed, signature_holds}
use moebius.Api.Files.Verified.{AreSafe}
use moebius.Api.Files.Downloads.{run-download}
use moebius.Database.{remove_file}
use moebius.Tests.{env_at}
use moebius.Tests.Uploads.{library, staged_a, row_a}

-- A signed file, uploaded but not yet completed, with its key.
abbrev signed_row : FileRow
signed_row = record row_a { signature = some "c2ln"; signature_key_id = some "key_a" }

abbrev signed_a : Files
signed_a = record staged_a {
  files = signed_row ∷ [];
  signing_keys =
      record {
        id = "key_a";
        tenant_id = "ten_a";
        name = "release";
        algorithm = "ed25519";
        public_key = "pem";
        fingerprint = "";
        created_by = none;
        created_at = 0;
      }
      ∷ [];
}

abbrev answer_a : FileDownloadResponse
answer_a = record {
  url = "/v1/files/data/fil_a";
  size_bytes = 6000000;
  chunk_size_bytes = 5242880;
  total_chunks = 2;
  sha256 = "hash";
  signature = "c2ln";
  signature_key_id = "key_a";
  expires_at = 300000000005;
}

safe_a : AreSafe library signed_a
unfolding contains is_genuine is_signed signature_holds find check_signature
    parse_ed25519_public_key_pem
safe_a = ((refl, tt), (refl, tt))

-- The upload is completed, and verified thereby.
abbrev completions : List Incoming
completions =
    record { env = env_at 5; tenant = "ten_a"; user = "usr_a"; request = completing "upl_a" } ∷ []

abbrev removals : All (λ (c : Incoming). c.env.fault remove_file ≡ false) completions
removals = (refl, tt)

downloads_a :
    download (env_at 5) "ten_a" "fil_a" (run none library completions signed_a) ≡ reply 200 answer_a
unfolding run handle complete assemble read_chunks save accept_digest verify_file_signature
    finish_upload update find download scan_file total_chunks_of check_signature
    parse_ed25519_public_key_pem
downloads_a = refl

serves_a :
    serve_file_data (env_at 5) "fil_a" (run none library completions signed_a)
    ≡ reply 200 (1 ∷ 2 ∷ 3 ∷ [])
unfolding run handle complete assemble read_chunks save accept_digest verify_file_signature
    finish_upload update find serve_file_data open_stored check_signature
    parse_ed25519_public_key_pem scan_file
serves_a = refl

run-download_example :
    (f : FileRow) × (find (has_row "fil_a" "ten_a") (run none library completions signed_a).files
      ≡ some f)
    × (f.signature ≡ some "c2ln")
    × (signature_holds library
          (run none library completions signed_a).signing_keys
          f
          (1 ∷ 2 ∷ 3 ∷ [])
        ≡ true)
run-download_example =
    run-download none library completions signed_a (env_at 5) "ten_a" "fil_a" answer_a
      (1 ∷ 2 ∷ 3 ∷ []) removals safe_a downloads_a (λ e. cc) serves_a
