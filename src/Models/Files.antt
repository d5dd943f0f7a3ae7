-- ===== src/Models/Files.antt =====
-- shared/models/file.go, and the rows of the tables files, file_uploads and signing_keys.
use moebius.Prelude.{ℕ, String, Bool, Option, List}

-- A sequence of octets.
abbrev pub Bytes : Type 0
Bytes = List ℕ

-- A row of files. Its other nullable columns are written with a text by the only INSERT.
pub record FileRow : Type 0 where
  pub id : String
  pub tenant_id : String
  pub filename : String
  pub size_bytes : ℕ
  pub sha256 : String
  pub signature : Option String
  pub signature_key_id : Option String
  pub signature_verified : Bool
  pub mime_type : String
  pub storage_backend : String
  pub storage_path : String
  pub created_by : String
  pub created_at : ℕ

-- models.File, which has a text for the nullable columns.
pub record File : Type 0 where
  pub id : String
  pub tenant_id : String
  pub filename : String
  pub size_bytes : ℕ
  pub sha256 : String
  pub signature : String
  pub signature_key_id : String
  pub signature_verified : Bool
  pub mime_type : String
  pub storage_backend : String
  pub storage_path : String
  pub created_by : String
  pub created_at : ℕ

pub record FileUpload : Type 0 where
  pub id : String
  pub file_id : String
  pub tenant_id : String
  pub chunk_size_bytes : ℕ
  pub total_chunks : ℕ
  pub uploaded_chunks : List ℕ
  pub completed_at : Option ℕ
  pub expires_at : ℕ
  pub created_at : ℕ

pub record SigningKey : Type 0 where
  pub id : String
  pub tenant_id : String
  pub name : String
  pub algorithm : String
  pub public_key : String
  pub fingerprint : String
  pub created_by : Option String
  pub created_at : ℕ
