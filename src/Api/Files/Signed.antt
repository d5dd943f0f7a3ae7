-- ===== src/Api/Files/Signed.antt =====
-- The signatures of stored files, over a history of requests of server/api/files.go.
use moebius.Prelude.{
  false, delete, String, ◌≡◌, ◌⊎◌, refl, subst, if◌then◌else◌, inl, inr, Bool, true, false, not,
  ◌&&◌, ◌||◌, ◌==◌, eq_iff, Option, none, some, List, [], ◌∷◌, arith, find, delete, find-true,
  delete, select, All, Bool-cases, Option-cases,
}
use moebius.Models.Files.{Bytes, FileRow, SigningKey}
use moebius.Database.{remove_file, Env}
use moebius.Storage.{discard, Stored, has_key, save, remove}
use moebius.Api.Files.{Library, Files}
use moebius.Api.Files.Complete.{
  checked, verify_file_signature, check_signature, parse_ed25519_public_key_pem, has_row,
}

-- The public key of a PEM text accepts a base64 signature of a digest.
unfoldable pub accepts : Library → String → String → Bytes → Bool
unfolding parse_ed25519_public_key_pem
accepts lib pem sig digest = elim (parse_ed25519_public_key_pem lib pem) [
  | none ↦ false
  | some key ↦ elim (lib.decode_base64 sig) [
    | none ↦ false
    | some raw ↦ lib.ed25519_verify key digest raw
  ]
]

-- The key of the file's tenant accepts the file's signature of a digest.
unfoldable pub signature_holds : Library → List SigningKey → FileRow → Bytes → Bool
unfolding find accepts
signature_holds lib keys f digest = elim f.signature [
  | none ↦ false
  | some sig ↦ elim f.signature_key_id [
    | none ↦ false
    | some key ↦ elim (find (λ (k : SigningKey). k.id == key && k.tenant_id == f.tenant_id) keys) [
      | none ↦ false
      | some k ↦ accepts lib k.public_key sig digest
    ]
  ]
]

unfoldable pub is_signed : FileRow → Bool
is_signed f = elim f.signature [
  | none ↦ false
  | some sig ↦ elim f.signature_key_id [ none ↦ false | some key ↦ not (sig == "" || key == "") ]
]

-- A row marked as verified is signed, and its signature holds for what is stored, if anything is.
unfoldable pub is_genuine : Library → List SigningKey → List Stored → FileRow → Bool
unfolding find is_signed signature_holds
is_genuine lib keys storage f =
    not f.signature_verified
    || is_signed f && elim (find (has_key f.id) storage) [
      | none ↦ true
      | some st ↦ signature_holds lib keys f (lib.sha256 st.content)
    ]

abbrev pub AreGenuine : Library → List SigningKey → List Stored → List FileRow → Type 0
AreGenuine lib keys storage files = All (λ f. is_genuine lib keys storage f ≡ true) files

find-delete-other :
    (key other : String) (files : List Stored)
    → (key == other) ≡ false
    → find (has_key other) (delete (has_key key) files) ≡ find (has_key other) files
unfolding delete select find
find-delete-other key other [] n = refl
find-delete-other key other (x ∷ xs) n = ground (
  arith,
  n,
  eq_iff x.key key,
  eq_iff x.key other,
  eq_iff key other,
  find-delete-other key other xs n,
)

find-delete-key :
    (key : String) (files : List Stored) → find (has_key key) (delete (has_key key) files) ≡ none
unfolding delete select find
find-delete-key key [] = refl
find-delete-key key (x ∷ xs) = ground (arith, find-delete-key key xs)

pub find-remove-other :
    (env : Env) (key other : String) (files : List Stored)
    → (key == other) ≡ false
    → find (has_key other) (remove env key files).1 ≡ find (has_key other) files
unfolding remove
find-remove-other env key other files n = ground (arith, find-delete-other key other files n)

pub find-remove :
    (env : Env) (key : String) (files : List Stored)
    → env.fault remove_file ≡ false
    → find (has_key key) (remove env key files).1 ≡ none
unfolding remove
find-remove env key files k = ground (arith, k, find-delete-key key files)

pub find-save-other :
    (path : String → String) (copied : Env → Bytes) (env : Env) (key other : String)
    (data' : Option Bytes) (files : List Stored)
    → (key == other) ≡ false
    → find (has_key other) (save path copied env key data' files).1 ≡ find (has_key other) files
unfolding save discard find
find-save-other path copied env key other none files n =
    ground (arith, n, find-delete-other key other files n)
find-save-other path copied env key other (some content) files n =
    ground (arith, n, find-delete-other key other files n)

-- What is stored under other keys does not matter to a row.
pub genuine-cong :
    (lib : Library) (keys : List SigningKey) (before after : List Stored) (f : FileRow)
    → find (has_key f.id) after ≡ find (has_key f.id) before
    → is_genuine lib keys before f ≡ true
    → is_genuine lib keys after f ≡ true
unfolding is_genuine
genuine-cong lib keys before after f e h = rw e h

pub genuine-none :
    (lib : Library) (keys : List SigningKey) (before after : List Stored) (f : FileRow)
    → find (has_key f.id) after ≡ none
    → is_genuine lib keys before f ≡ true
    → is_genuine lib keys after f ≡ true
unfolding is_genuine
genuine-none lib keys before after f e h = ground (arith, e, h)

pub genuine-delete :
    (lib : Library) (keys : List SigningKey) (key : String) (storage : List Stored) (f : FileRow)
    → is_genuine lib keys storage f ≡ true
    → is_genuine lib keys (delete (has_key key) storage) f ≡ true
genuine-delete lib keys key storage f h =
    let after = delete (has_key key) storage in
    elim (Bool-cases (key == f.id)) [
      | inl e ↦
          genuine-none lib keys storage after f
            (ground (arith, find-delete-key key storage, (eq_iff key f.id).0 e)) h
      | inr n ↦ genuine-cong lib keys storage after f (find-delete-other key f.id storage n) h
    ]

pub genuine-remove :
    (lib : Library) (keys : List SigningKey) (env : Env) (key : String) (storage : List Stored)
    (f : FileRow)
    → is_genuine lib keys storage f ≡ true
    → is_genuine lib keys (remove env key storage).1 f ≡ true
unfolding remove
genuine-remove lib keys env key storage f h =
    ground (arith, h, genuine-delete lib keys key storage f h)

check_signature-checked :
    (lib : Library) (pem sig : String) (digest : Bytes) {b : Bool}
    → check_signature lib pem sig digest ≡ checked b
    → (b ≡ true) × (accepts lib pem sig digest ≡ true)
unfolding check_signature accepts
check_signature-checked lib pem sig digest {b} h = (ground (arith, h), ground (arith, h))

pub verify_file_signature-checked :
    (lib : Library) (env : Env) (tenant id : String) (digest : Bytes) (s : Files) (f : FileRow)
    {b : Bool}
    → find (has_row id tenant) s.files ≡ some f
    → verify_file_signature lib env tenant id digest s ≡ checked b
    → (is_signed f ≡ b) × ((b ≡ false) ⊎ (signature_holds lib s.signing_keys f digest ≡ true))
unfolding verify_file_signature is_signed signature_holds
verify_file_signature-checked lib env tenant id digest s f {b} e h =
    let row : (f.id == id && f.tenant_id == tenant) ≡ true =
      find-true (has_row id tenant) s.files e in
    let t : f.tenant_id ≡ tenant = ground (arith, row, eq_iff f.tenant_id tenant) in
    elim (Option-cases f.signature) [
      | inl g ↦ ground (arith, e, h, g)
      | inr (sig, g) ↦ elim (Option-cases f.signature_key_id) [
        | inl k ↦ ground (arith, e, h, g, k)
        | inr (key, k) ↦
            elim (Option-cases
              (find (λ (r : SigningKey). r.id == key && r.tenant_id == tenant) s.signing_keys)) [
                | inl n ↦ ground (arith, e, h, g, k, n, t)
                | inr (r, n) ↦
                    ground
                      (arith, e, h, g, k, n, t, check_signature-checked lib r.public_key sig digest)
              ]
      ]
    ]

abbrev pub mark : String → Bool → FileRow → FileRow
mark path verified f = record f { storage_path = path; signature_verified = verified }

-- A row whose file was stored again, with the outcome of the verification.
restored :
    (lib : Library) (keys : List SigningKey) (before after : List Stored) (f : FileRow)
    (path : String) (content : Bytes) (b : Bool)
    → find (has_key f.id) after ≡ some (record { key = f.id; content = content })
    → (is_signed f ≡ b) × ((b ≡ false) ⊎ (signature_holds lib keys f (lib.sha256 content) ≡ true))
    → is_genuine lib keys before f ≡ true
    → (is_genuine lib keys after f ≡ true) × (is_genuine lib keys after (mark path b f) ≡ true)
unfolding is_genuine is_signed signature_holds
restored lib keys before after f path content b e v h =
    (ground (arith, e, v, h), ground (arith, e, v, h))

pub row-genuine :
    (lib : Library) (keys : List SigningKey) (env : Env) (id : String) (content : Bytes)
    (storage : List Stored) (f0 f : FileRow) (path : String) (b : Bool)
    → (f0.id ≡ id)
    → find (has_key id) (save lib.storage_path lib.copied env id (some content) storage).1
      ≡ some (record { key = id; content = content })
    → (is_signed f0 ≡ b) × ((b ≡ false) ⊎ (signature_holds lib keys f0 (lib.sha256 content) ≡ true))
    → (is_genuine lib keys storage f ≡ true) × ((f.id == id) ≡ true → f ≡ f0)
    → (is_genuine lib keys (save lib.storage_path lib.copied env id (some content) storage).1 f
        ≡ true)
      × (is_genuine lib keys
            (save lib.storage_path lib.copied env id (some content) storage).1
            (if f.id == id then mark path b f else f)
          ≡ true)
row-genuine lib keys env id content storage f0 f path b i e v h =
    let after = (save lib.storage_path lib.copied env id (some content) storage).1 in
    elim (Bool-cases (f.id == id)) [
      | inl same ↦
          let r =
            restored lib keys storage after f0 path content b (rw i e) v
              (subst (λ x. is_genuine lib keys storage x ≡ true) (h.1 same) h.0) in
          rw (same, h.1 same) r
      | inr n ↦
          let g =
            genuine-cong lib keys storage after f
              (find-save-other lib.storage_path lib.copied env id f.id (some content) storage
                (ground (arith, n, eq_iff f.id id, eq_iff id f.id)))
              h.0 in
          rw n (g, g)
    ]
