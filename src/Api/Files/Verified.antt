-- ===== src/Api/Files/Verified.antt =====
-- The rows that server/api/files.go marks as verified, over a history of requests.
use moebius.Prelude.{
  false, String, ◌≡◌, ◌⊎◌, refl, subst, ◌∙◌, inl, inr, Bool, true, ◌==◌, eq_iff, eqb, Option, none,
  some, List, arith, length, find, find-true, All-imp, All-zip, All-update-imp, Bool-cases,
  Option-cases,
}
use moebius.Prelude.Keys.{Distinct, found-only, Distinct-update}
use moebius.Models.Files.{Bytes, FileRow, FileUpload, SigningKey}
use moebius.Database.{remove_file, Env, select_upload, update_file}
use moebius.Storage.{discard, Stored, has_key, save, remove}
use moebius.Api.Files.{Library, Files, is_open_upload}
use moebius.Api.Files.Complete.{
  complete, assemble, accept_digest, finish_upload, read_chunks, expected_hash, Verification,
  checked, invalid, failed, verify_file_signature, has_row,
}
use moebius.Api.Files.Assembly.{save-find}
use moebius.Api.Files.Signed.{
  AreGenuine, is_genuine, mark, row-genuine, genuine-cong, genuine-none, genuine-delete,
  find-save-other, find-remove-other, find-remove, verify_file_signature-checked,
}

abbrev pub file_id : FileRow → String
file_id f = f.id

-- The rows of files have distinct ids and are genuine.
abbrev pub AreSafe : Library → Files → Type 0
AreSafe lib s = Distinct file_id s.files × AreGenuine lib s.signing_keys s.storage s.files

pub has_row-id : (id tenant : String) (r : FileRow) → has_row id tenant r ≡ true → r.id ≡ id
has_row-id id tenant r h = ground (arith, h, eq_iff r.id id)

-- The reader's error, a failed save, or a file that is removed after the check.
save-genuine :
    (lib : Library) (keys : List SigningKey) (env : Env) (id : String) (storage : List Stored)
    (content : Option Bytes) (f : FileRow)
    → env.fault remove_file ≡ false
    → (save lib.storage_path lib.copied env id content storage).0 ≡ none
    → is_genuine lib keys storage f ≡ true
    → is_genuine lib keys (save lib.storage_path lib.copied env id content storage).1 f ≡ true
unfolding save discard
save-genuine lib keys env id storage none f k e h =
    ground (arith, h, k, genuine-delete lib keys id storage f h)
save-genuine lib keys env id storage (some content) f k e h =
    ground (arith, e, h, k, genuine-delete lib keys id storage f h)

dropped-genuine :
    (lib : Library) (keys : List SigningKey) (env : Env) (id : String) (storage : List Stored)
    (content : Bytes) (f : FileRow)
    → env.fault remove_file ≡ false
    → is_genuine lib keys storage f ≡ true
    → is_genuine lib keys
        (remove env id (save lib.storage_path lib.copied env id (some content) storage).1).1
        f
      ≡ true
dropped-genuine lib keys env id storage content f k h =
    let saved = (save lib.storage_path lib.copied env id (some content) storage).1 in
    elim (Bool-cases (id == f.id)) [
      | inl e ↦
          genuine-none lib keys storage (remove env id saved).1 f
            (subst (λ x. find (has_key x) (remove env id saved).1 ≡ none) ((eq_iff id f.id).0 e)
              (find-remove env id saved k))
            h
      | inr n ↦
          genuine-cong lib keys storage (remove env id saved).1 f
            (find-remove-other env id f.id saved n
              ∙ find-save-other lib.storage_path lib.copied env id f.id (some content) storage n)
            h
    ]

finish-AreSafe :
    (lib : Library) (env : Env) (tenant user : String) (u : FileUpload) (path : String) (b : Bool)
    (content : Bytes) (storage : List Stored) (s : Files) (f0 : FileRow)
    → s.storage ≡ (save lib.storage_path lib.copied env u.file_id (some content) storage).1
    → find
        (has_key u.file_id)
        (save lib.storage_path lib.copied env u.file_id (some content) storage).1
      ≡ some (record { key = u.file_id; content = content })
    → find (has_row u.file_id tenant) s.files ≡ some f0
    → verify_file_signature lib env tenant u.file_id (lib.sha256 content) s ≡ checked b
    → Distinct file_id s.files × AreGenuine lib s.signing_keys storage s.files
    → AreSafe lib (finish_upload env tenant user u path b s)
unfolding finish_upload
finish-AreSafe lib env tenant user u path b content storage s f0 st e found v h =
    let keys = s.signing_keys in
    let id : f0.id ≡ u.file_id =
      has_row-id u.file_id tenant f0 (find-true (has_row u.file_id tenant) s.files found) in
    let only =
      found-only file_id u.file_id (has_row u.file_id tenant) s.files {j = f0}
        (has_row-id u.file_id tenant) h.0 found in
    let rows = All-zip _ _ s.files h.1 only in
    let outcome =
      verify_file_signature-checked lib env tenant u.file_id (lib.sha256 content) s f0 found v in
    elim (Bool-cases (env.fault update_file)) [
      | inl t ↦
          rw (t, st)
            (
              h.0,
              All-imp _ _
                  (λ f r.
                    (row-genuine lib keys env u.file_id content storage f0 f path b id e outcome
                      r).0)
                  s.files rows,
            )
      | inr t ↦
          rw (t, st)
            (
              Distinct-update file_id _ (mark path b) s.files (λ f. refl) h.0,
              All-update-imp _ _ (λ f. f.id == u.file_id) (mark path b) s.files
                  (λ f r.
                    (row-genuine lib keys env u.file_id content storage f0 f path b id e outcome
                      r).1)
                  rows,
            )
    ]

save-none :
    (lib : Library) (env : Env) (id : String) (storage : List Stored)
    → (save lib.storage_path lib.copied env id none storage).0 ≡ none
unfolding save
save-none lib env id storage = ground arith

verification-cases :
    (v : Verification) → ((v ≡ invalid) ⊎ (v ≡ failed)) ⊎ ((b : Bool) × (v ≡ checked b))
verification-cases (checked b) = inr (b, refl)
verification-cases invalid = inl (inl refl)
verification-cases failed = inl (inr refl)

outcome-cases :
    (lib : Library) (env : Env) (tenant id : String) (digest : Bytes) (s : Files)
    → ((verify_file_signature lib env tenant id digest s ≡ invalid)
        ⊎ (verify_file_signature lib env tenant id digest s ≡ failed))
      ⊎ ((b : Bool) × (f : FileRow) × (verify_file_signature lib env tenant id digest s ≡ checked b)
          × (find (has_row id tenant) s.files ≡ some f))
unfolding verify_file_signature
outcome-cases lib env tenant id digest s =
    elim (verification-cases (verify_file_signature lib env tenant id digest s)) [
      | inl w ↦ inl w
      | inr (b, w) ↦ elim (Option-cases (find (has_row id tenant) s.files)) [
        | inl e ↦ absurd (ground (arith, w, e))
        | inr (f, e) ↦ inr (b, f, w, e)
      ]
    ]

accept_digest-AreSafe :
    (lib : Library) (env : Env) (tenant user : String) (u : FileUpload) (path : String)
    (content : Bytes) (s : Files)
    → find
        (has_key u.file_id)
        (save lib.storage_path lib.copied env u.file_id (some content) s.storage).1
      ≡ some (record { key = u.file_id; content = content })
    → env.fault remove_file ≡ false
    → AreSafe lib s
    → AreSafe lib
        (accept_digest lib env tenant user u path (lib.sha256 content) (record s {
          storage = (save lib.storage_path lib.copied env u.file_id (some content) s.storage).1;
        })).1
unfolding accept_digest
accept_digest-AreSafe lib env tenant user u path content s e k h =
    let saved = (save lib.storage_path lib.copied env u.file_id (some content) s.storage).1 in
    let s' : Files = record s { storage = saved } in
    let digest = lib.sha256 content in
    let dropped : AreSafe lib (record s { storage = (remove env u.file_id saved).1 }) = (
      h.0,
      All-imp _ _ (λ f g. dropped-genuine lib s.signing_keys env u.file_id s.storage content f k g)
          s.files h.1,
    ) in
    elim (Bool-cases (lib.hex digest == expected_hash env u.file_id s.files)) [
      | inr n ↦ rw n dropped
      | inl y ↦ elim (outcome-cases lib env tenant u.file_id digest s') [
        | inl (inl w) ↦ rw (y, w) dropped
        | inl (inr w) ↦ rw (y, w) dropped
        | inr (b, f0, w, found) ↦
            rw (y, w)
              (finish-AreSafe lib env tenant user u path b content s.storage s' f0 refl e found w h)
      ]
    ]

unsaved-AreSafe :
    (lib : Library) (env : Env) (id : String) (content : Option Bytes) (s : Files)
    → env.fault remove_file ≡ false
    → (save lib.storage_path lib.copied env id content s.storage).0 ≡ none
    → AreSafe lib s
    → AreSafe lib
        (record s { storage = (save lib.storage_path lib.copied env id content s.storage).1 })
unsaved-AreSafe lib env id content s k e h = (
  h.0,
  All-imp _ _ (λ f g. save-genuine lib s.signing_keys env id s.storage content f k e g) s.files h.1,
)

assemble-AreSafe :
    (lib : Library) (env : Env) (tenant user : String) (u : FileUpload) (s : Files)
    → env.fault remove_file ≡ false
    → AreSafe lib s
    → AreSafe lib (assemble lib env tenant user u s).1
unfolding assemble
assemble-AreSafe lib env tenant user u s k h =
    elim (Option-cases (read_chunks env u.id u.total_chunks 0 s.staging)) [
      | inl e ↦
          let w : (assemble lib env tenant user u s).1 ≡ record s {
            storage = (save lib.storage_path lib.copied env u.file_id none s.storage).1;
          } =
            ground (arith, e) in
          rw w
            (unsaved-AreSafe lib env u.file_id none s k (save-none lib env u.file_id s.storage) h)
      | inr (content, e) ↦
          let saved = save lib.storage_path lib.copied env u.file_id (some content) s.storage in
          elim (Option-cases saved.0) [
            | inl g ↦
                let w : (assemble lib env tenant user u s).1 ≡ record s { storage = saved.1 } =
                  ground (arith, e, g) in
                rw w (unsaved-AreSafe lib env u.file_id (some content) s k g h)
            | inr (path, g) ↦
                let w : (assemble lib env tenant user u s).1
                    ≡ (accept_digest lib env tenant user u path (lib.sha256 content)
                        (record s { storage = saved.1 })).1 =
                  ground (arith, e, g) in
                rw w (
                  accept_digest-AreSafe lib env tenant user u path content s
                    (save-find lib.storage_path lib.copied env u.file_id content s.storage g) k h)
          ]
    ]

pub complete-AreSafe :
    (lib : Library) (env : Env) (tenant user id : String) (s : Files)
    → env.fault remove_file ≡ false
    → AreSafe lib s
    → AreSafe lib (complete lib env tenant user id s).1
unfolding complete
complete-AreSafe lib env tenant user id s k h = elim (Bool-cases (env.fault select_upload)) [
  | inl f ↦ rw f h
  | inr f ↦ elim (Option-cases (find (is_open_upload id tenant) s.uploads)) [
    | inl e ↦ rw (f, e) h
    | inr (u, e) ↦ elim (Bool-cases (eqb (length u.uploaded_chunks) u.total_chunks)) [
      | inl g ↦ rw (f, e, g) (assemble-AreSafe lib env tenant user u s k h)
      | inr g ↦ rw (f, e, g) h
    ]
  ]
]
