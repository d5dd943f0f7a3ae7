-- ===== src/Api/Files/Sending.antt =====
-- A whole upload through server/api/files.go: every chunk in order, then its completion.
use moebius.Prelude.{
  ℕ, suc, ◌+◌, ◌≤◌, ◌<◌, String, ◌≡◌, ap, sym, subst, ◌∙◌, refl, Bool, true, false, ◌==◌, eq_refl,
  eqb, ltb, some, List, [], ◌∷◌, ◌++◌, arith, length, length-append, find, update, delete, select,
  All, All-append, All-imp, contains,
}
use moebius.Prelude.Int.{pos}
use moebius.Models.Files.{Bytes, FileUpload}
use moebius.Database.{Env, Call, read_chunk, write_chunk, update_chunks, select_upload}
use moebius.Api.Files.{
  Library, Files, Chunk, is_open_upload, is_chunk, stage, record_chunk, chunk_row, upload_chunk,
  store_chunk, default_chunk_size,
}
use moebius.Api.Files.Complete.{read_chunks}

abbrev pub IsFaultless : Env → Type 0
IsFaultless env = (c : Call) → env.fault c ≡ false

abbrev pub concat : List Bytes → Bytes
concat [] = []
concat (b ∷ bs) = b ++ concat bs

-- The chunks i, i + 1, … are uploaded in order, without the optional header.
unfoldable pub send_all : Library → Env → String → String → ℕ → List Bytes → Files → Files
send_all lib env tenant id i [] s = s
send_all lib env tenant id i (b ∷ bs) s =
    send_all lib env tenant id (suc i) bs
      (upload_chunk lib env tenant id (some (pos i)) "" (some b) s).1

find-update :
    (q p : FileUpload → Bool) (f : FileUpload → FileUpload) (us : List FileUpload) (u : FileUpload)
    → ((x : FileUpload) → q (f x) ≡ q x)
    → find q us ≡ some u
    → p u ≡ true
    → find q (update p f us) ≡ some (f u)
unfolding find update
find-update q p f [] u k e h = cc
find-update q p f (x ∷ us) u k e h = ground (arith, k x, e, h, find-update q p f us u k)

stage-same :
    (upload : String) (i : ℕ) (body : Bytes) (staging : List Chunk)
    → find (is_chunk upload i) (stage upload i body staging)
      ≡ some (record { upload_id = upload; index = i; content = body })
unfolding stage find
stage-same upload i body staging = ground (arith, eq_refl upload)

find-kept :
    (upload : String) (i j : ℕ) (staging : List Chunk)
    → j < i
    → find (is_chunk upload j) (delete (is_chunk upload i) staging)
      ≡ find (is_chunk upload j) staging
unfolding find delete select
find-kept upload i j [] lt = refl
find-kept upload i j (c ∷ cs) lt = ground (arith, find-kept upload i j cs lt)

stage-other :
    (upload : String) (i j : ℕ) (body : Bytes) (staging : List Chunk)
    → j < i
    → find (is_chunk upload j) (stage upload i body staging) ≡ find (is_chunk upload j) staging
unfolding stage find
stage-other upload i j body staging lt = ground (arith, find-kept upload i j staging lt)

-- An index above those recorded is appended.
keeps_below : (i : ℕ) (xs : List ℕ) → All (λ j. j < i) xs → delete (λ j. eqb j i) xs ≡ xs
unfolding delete select
keeps_below i [] h = refl
keeps_below i (x ∷ xs) h = ground (arith, h.0, keeps_below i xs h.1)

record_chunk-above : (i : ℕ) (xs : List ℕ) → All (λ j. j < i) xs → record_chunk i xs ≡ xs ++ i ∷ []
unfolding record_chunk
record_chunk-above i xs h = ap (λ ys. ys ++ i ∷ []) (keeps_below i xs h)

store_chunk-faultless :
    (env : Env) (u : FileUpload) (i : ℕ) (body : Bytes) (s : Files)
    → IsFaultless env
    → contains u.id s.stage_dirs ≡ true
    → (store_chunk env u i body s).1 ≡ record s {
      staging = stage u.id i body s.staging;
      uploads = update (λ (r : FileUpload). r.id == u.id) (chunk_row env.now i) s.uploads;
    }
unfolding store_chunk
store_chunk-faultless env u i body s ok dir = ground (arith, dir, ok write_chunk, ok update_chunks)

upload_chunk-faultless :
    (lib : Library) (env : Env) (tenant id : String) (i : ℕ) (body : Bytes) (s : Files)
    (u : FileUpload)
    → IsFaultless env
    → find (is_open_upload id tenant) s.uploads ≡ some u
    → ltb u.expires_at env.now ≡ false
    → i < u.total_chunks
    → length body ≤ default_chunk_size + 1
    → (upload_chunk lib env tenant id (some (pos i)) "" (some body) s).1
      ≡ (store_chunk env u i body s).1
unfolding upload_chunk
upload_chunk-faultless lib env tenant id i body s u ok e fresh lt le =
    ground (arith, ok select_upload, e, fresh, lt, le)

-- The session of an upload after the chunks below i.
abbrev pub IsAt : Env → String → String → ℕ → Files → FileUpload → Type 0
IsAt env tenant id i s u =
    (find (is_open_upload id tenant) s.uploads ≡ some u)
    × (ltb u.expires_at env.now ≡ false)
    × All (λ j. j < i) u.uploaded_chunks
    × (length u.uploaded_chunks ≡ i)

abbrev pub IsSameFile : FileUpload → FileUpload → Type 0
IsSameFile u v = (v.id ≡ u.id) × (v.file_id ≡ u.file_id) × (v.total_chunks ≡ u.total_chunks)

abbrev pub IsKept : Files → Files → Type 0
IsKept s s' = (s'.files ≡ s.files) × (s'.signing_keys ≡ s.signing_keys) × (s'.storage ≡ s.storage)

unfoldable after_chunk : Env → FileUpload → ℕ → Bytes → Files → Files
after_chunk env u i body s = record s {
  staging = stage u.id i body s.staging;
  uploads = update (λ (r : FileUpload). r.id == u.id) (chunk_row env.now i) s.uploads;
}

after_chunk-IsAt :
    (env : Env) (tenant id : String) (i : ℕ) (body : Bytes) (s : Files) (u : FileUpload)
    → IsAt env tenant id i s u
    → IsAt env tenant id (suc i) (after_chunk env u i body s) (chunk_row env.now i u)
unfolding after_chunk
after_chunk-IsAt env tenant id i body s u h =
    let above = record_chunk-above i u.uploaded_chunks h.2 in
    (
      find-update (is_open_upload id tenant) (λ r. r.id == u.id) (chunk_row env.now i) s.uploads u
          (λ x. refl) h.0 (eq_refl u.id),
      ground arith,
      rw above (
          All-append _ u.uploaded_chunks (i ∷ []) (All-imp _ _ (λ j lt. omega (arith, lt)) _ h.2)
            (omega arith, tt)),
      rw above (omega (arith, length-append u.uploaded_chunks (i ∷ []), h.3)),
    )

read_chunks-first :
    (env : Env) (upload : String) (i : ℕ) (b : Bytes) (bs : List Bytes) (staging : List Chunk)
    → IsFaultless env
    → find (is_chunk upload i) staging
      ≡ some (record { upload_id = upload; index = i; content = b })
    → read_chunks env upload (length bs) (suc i) staging ≡ some (concat bs)
    → read_chunks env upload (length (b ∷ bs)) i staging ≡ some (concat (b ∷ bs))
unfolding read_chunks
read_chunks-first env upload i b bs staging ok e r = ground (arith, ok (read_chunk i), e, r)

upload_chunk-after :
    (lib : Library) (env : Env) (tenant id : String) (i : ℕ) (body : Bytes) (s : Files)
    (u : FileUpload)
    → IsFaultless env
    → find (is_open_upload id tenant) s.uploads ≡ some u
    → ltb u.expires_at env.now ≡ false
    → i < u.total_chunks
    → length body ≤ default_chunk_size + 1
    → contains u.id s.stage_dirs ≡ true
    → (upload_chunk lib env tenant id (some (pos i)) "" (some body) s).1
      ≡ after_chunk env u i body s
unfolding after_chunk
upload_chunk-after lib env tenant id i body s u ok e fresh lt le dir =
    upload_chunk-faultless lib env tenant id i body s u ok e fresh lt le
    ∙ store_chunk-faultless env u i body s ok dir

-- What the chunks i, i + 1, … leave behind.
abbrev pub Sent : Env → String → String → ℕ → List Bytes → Files → FileUpload → Files → Type 0
Sent env tenant id i bs s u s' =
    (v : FileUpload) × IsAt env tenant id (i + length bs) s' v
    × IsSameFile u v
    × IsKept s s'
    × (read_chunks env u.id (length bs) i s'.staging ≡ some (concat bs))
    × ((j : ℕ) → j < i → find (is_chunk u.id j) s'.staging ≡ find (is_chunk u.id j) s.staging)

pub send_all-Sent :
    (lib : Library) (env : Env) (tenant id : String) (i : ℕ) (bs : List Bytes) (s : Files)
    (u : FileUpload)
    → IsFaultless env
    → IsAt env tenant id i s u
    → i + length bs ≤ u.total_chunks
    → All (λ b. length b ≤ default_chunk_size + 1) bs
    → contains u.id s.stage_dirs ≡ true
    → Sent env tenant id i bs s u (send_all lib env tenant id i bs s)
unfolding send_all read_chunks after_chunk
send_all-Sent lib env tenant id i [] s u ok h le sizes dir = (
  u,
  subst (λ n. IsAt env tenant id n s u) (omega arith) h,
  (refl, refl, refl),
  (refl, refl, refl),
  refl,
  λ j lt. refl,
)
send_all-Sent lib env tenant id i (b ∷ bs) s u ok h le sizes dir =
    let s1 = after_chunk env u i b s in
    let sent : (upload_chunk lib env tenant id (some (pos i)) "" (some b) s).1 ≡ s1 =
      upload_chunk-after lib env tenant id i b s u ok h.0 h.1 (omega (arith, le)) sizes.0 dir in
    let (v, at, same, kept, chunks, below) =
      send_all-Sent lib env tenant id (suc i) bs s1 (chunk_row env.now i u) ok
        (after_chunk-IsAt env tenant id i b s u h) (omega (arith, le)) sizes.1 dir in
    let w = ap (send_all lib env tenant id (suc i) bs) sent in
    subst (Sent env tenant id i (b ∷ bs) s u) (sym w) (
      v,
      subst (λ n. IsAt env tenant id n (send_all lib env tenant id (suc i) bs s1) v) (omega arith)
          at,
      same,
      kept,
      read_chunks-first env u.id i b bs _ ok (below i (omega arith) ∙ stage-same u.id i b s.staging)
          chunks,
      λ j lt. below j (omega (arith, lt)) ∙ stage-other u.id i j b s.staging lt,
    )
