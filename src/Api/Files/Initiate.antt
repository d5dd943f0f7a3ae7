-- ===== src/Api/Files/Initiate.antt =====
-- server/api/files.go: InitiateUpload.
use moebius.Prelude.{
  ℕ, ◌+◌, ◌-◌, ◌/◌, String, Bool, false, not, ◌&&◌, ◌||◌, ◌==◌, Option, none, some, List, [], ◌∷◌,
  ◌++◌, map, contains, eqb, if◌then◌else◌,
}
use moebius.Prelude.Int.{ℤ, pos, negsuc}
use moebius.Models.Device.{Tenant}
use moebius.Models.Files.{FileRow, FileUpload, SigningKey}
use moebius.Database.{Env, begin_tx, commit_tx, insert_file, insert_upload, ref_ok, make_stage_dir}
use moebius.Quota.{Defaults, allowed, exceeded, failure, check_file_size}
use moebius.Api.Respond.{Response, reply, error, error_status}
use moebius.Api.Files.{Files, default_chunk_size, upload_expiry}

pub record InitiateUploadRequest : Type 0 where
  pub filename : String
  pub size_bytes : ℤ
  pub sha256 : String
  pub signature : String
  pub signature_key_id : String
  pub mime_type : String

pub record InitiateUploadResponse : Type 0 where
  pub file_id : String
  pub upload_id : String
  pub chunk_size_bytes : ℕ
  pub total_chunks : ℕ
  pub uploaded_chunks : List ℕ
  pub expires_at : ℕ

unfoldable pub null_if_empty : String → Option String
null_if_empty s = if s == "" then none else some s

-- ⌈size_bytes / defaultChunkSize⌉, exact in float64 below 2^53.
unfoldable pub total_chunks_of : ℕ → ℕ
total_chunks_of size_bytes = (size_bytes + (default_chunk_size - 1)) / default_chunk_size

-- The primary key and the foreign keys of files accept the row.
unfoldable pub file_accepted : Files → FileRow → Bool
file_accepted s f =
    not (contains f.id (map (λ (r : FileRow). r.id) s.files))
    && contains f.tenant_id (map (λ (t : Tenant). t.id) s.db.tenants)
    && ref_ok f.signature_key_id (map (λ (k : SigningKey). k.id) s.signing_keys)
    && contains f.created_by s.db.users

abbrev pub new_file : Env → String → String → ℕ → InitiateUploadRequest → FileRow
new_file env tenant user size req = record {
  id = env.fresh insert_file;
  tenant_id = tenant;
  filename = req.filename;
  size_bytes = size;
  sha256 = req.sha256;
  signature = null_if_empty req.signature;
  signature_key_id = null_if_empty req.signature_key_id;
  signature_verified = false;
  mime_type = req.mime_type;
  storage_backend = "local";
  storage_path = "";
  created_by = user;
  created_at = env.now;
}

abbrev pub new_upload : Env → String → ℕ → FileUpload
new_upload env tenant size = record {
  id = env.fresh insert_upload;
  file_id = env.fresh insert_file;
  tenant_id = tenant;
  chunk_size_bytes = default_chunk_size;
  total_chunks = total_chunks_of size;
  uploaded_chunks = [];
  completed_at = none;
  expires_at = env.now + upload_expiry;
  created_at = env.now;
}

-- The transaction of InitiateUpload; its error has one answer wherever it occurs.
unfoldable pub insert_rows : Env → FileRow → FileUpload → Files → Option Files
unfolding file_accepted
insert_rows env f u s =
    if env.fault begin_tx
      || env.fault insert_file
      || not (file_accepted s f)
      || env.fault insert_upload
      || contains u.id (map (λ (r : FileUpload). r.id) s.uploads)
      || env.fault commit_tx
    then none
    else some (record s { files = s.files ++ f ∷ []; uploads = s.uploads ++ u ∷ [] })

-- os.MkdirAll, whose error is ignored.
abbrev pub made_stage_dir : Env → String → Files → Files
made_stage_dir env upload s =
    if env.fault make_stage_dir then s else record s { stage_dirs = upload ∷ s.stage_dirs }

abbrev start_upload :
    Env
    → String
    → String
    → ℕ
    → InitiateUploadRequest
    → Files
    → Response InitiateUploadResponse × Files
start_upload env tenant user size req s =
    let u = new_upload env tenant size in
    elim (insert_rows env (new_file env tenant user size req) u s) [
      | none ↦ (error_status 500, s)
      | some s' ↦ (
        reply 201 (record {
          file_id = u.file_id;
          upload_id = u.id;
          chunk_size_bytes = default_chunk_size;
          total_chunks = u.total_chunks;
          uploaded_chunks = [];
          expires_at = u.expires_at;
        }),
        made_stage_dir env u.id s',
      )
    ]

-- POST /v1/files, once the size is known not to be negative.
abbrev initiate_sized :
    Option Defaults
    → Env
    → String
    → String
    → ℕ
    → InitiateUploadRequest
    → Files
    → Response InitiateUploadResponse × Files
initiate_sized quota env tenant user size req s =
    if req.filename == "" || eqb size 0 || req.sha256 == ""
    then (error_status 400, s)
    else elim (check_file_size quota env s.db tenant size) [
      | allowed ↦ start_upload env tenant user size req s
      | exceeded kind limit current attempted ↦ (error 409 "quota_exceeded", s)
      | failure ↦ (error_status 500, s)
    ]

-- POST /v1/files; `none` is a body that does not decode.
unfoldable pub initiate_upload :
    Option Defaults
    → Env
    → String
    → String
    → Option InitiateUploadRequest
    → Files
    → Response InitiateUploadResponse × Files
unfolding error_status insert_rows total_chunks_of null_if_empty
initiate_upload quota env tenant user none s = (error_status 400, s)
initiate_upload quota env tenant user (some req) s = elim req.size_bytes [
  | negsuc n ↦ (error_status 400, s)
  | pos size ↦ initiate_sized quota env tenant user size req s
]
