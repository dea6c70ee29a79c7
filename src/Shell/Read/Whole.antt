-- ===== src/Shell/Read/Whole.antt =====
-- What the dump of a file shows.
use mathlib.Core.List.{append_assoc}
use mymouse.Base.{
  ℕ, zero, suc, ◌-◌, ◌≤◌, ◌<◌, ◌≡◌, ◌≢◌, ◌⊎◌, inl, inr, refl, ◌∙◌, sym, ap, List, [], ◌∷◌, ◌++◌,
  Option, none, some, length, take, length-append, Errno, min, arith,
}
use mymouse.Base.Int.{ℤ, pos, ◌+ℤ◌}
use mymouse.Shell.Paths.{Text}
use mymouse.Shell.Kernel.{FileSystem, Dirent, found, file_entry}
use mymouse.Shell.{Shell, abs_path, buf_cnt}
use mymouse.Shell.Read.{
  Chunk, bytes, failed, Reader, Row, read_rows, seek_offset, count_of, cmd_read, dump, cat_bytes,
}

-- What the kernel documents of fs_read: `content` is what is left of the open file.
pub record IsReader (fs : FileSystem) (reader : Reader fs) : Type 0 where
  pub content : fs.State → List ℕ
  pub read_bytes :
      (n : ℕ) (disk : fs.State) (bs : List ℕ)
      → (reader.read n disk).1 ≡ bytes bs
      → (content disk ≡ bs ++ content (reader.read n disk).0) × (length bs ≤ n)
  pub read_end :
      (n : ℕ) (disk : fs.State) → 0 < n → (reader.read n disk).1 ≡ bytes [] → content disk ≡ []

-- The rows are numbered from `offset` on, without gaps, and have 1 to 16 bytes.
abbrev pub Numbered : ℤ → List Row → Type 0
Numbered offset [] = Unit
Numbered offset (r ∷ rows) =
    (r.offset ≡ offset)
    × (0 < length r.row)
    × (length r.row ≤ 16)
    × Numbered (offset +ℤ pos (length r.row)) rows

abbrev pub dumped : List Row → List ℕ
dumped [] = []
dumped (r ∷ rows) = r.row ++ dumped rows

Chunk-cases :
    (c : Chunk)
    → ((e : Errno) × (c ≡ failed e))
      ⊎ ((c ≡ bytes []) ⊎ ((b : ℕ) × (bs : List ℕ) × (c ≡ bytes (b ∷ bs))))
Chunk-cases (failed e) = inl (e, refl)
Chunk-cases (bytes []) = inr (inl refl)
Chunk-cases (bytes (b ∷ bs)) = inr (inr (b, bs, refl))

take-append :
    (n : ℕ) (xs ys : List ℕ) → length xs ≤ n → take n (xs ++ ys) ≡ xs ++ take (n - length xs) ys
take-append n [] ys h = ap (λ (k : ℕ). take k ys) (omega arith)
take-append zero (x ∷ xs) ys h = absurd (omega arith)
take-append (suc n) (x ∷ xs) ys h =
    ap (λ (l : List ℕ). x ∷ l)
      (take-append n xs ys (omega arith) ∙ ap (λ (k : ℕ). xs ++ take k ys) (omega arith))

take_zero : (n : ℕ) (xs : List ℕ) → n ≡ 0 → take n xs ≡ []
take_zero zero xs h = refl
take_zero (suc n) xs h = absurd (omega arith)

module _ (fs : FileSystem) (reader : Reader fs) (kernel : IsReader fs reader) where
  open kernel use {content, read_bytes, read_end}

  -- No read fails.
  abbrev pub Works : Type 0
  Works = (n : ℕ) (disk : fs.State) (e : Errno) → (reader.read n disk).1 ≢ failed e

  abbrev Dumps : ℕ → ℕ → ℤ → fs.State → Type 0
  Dumps fuel count offset disk =
      (disk' : fs.State) × (rows : List Row) × (rest : List ℕ) × (read_rows fs reader fuel count
          offset disk
        ≡ some (disk', rows))
      × Numbered offset rows
      × (dumped rows ++ rest ≡ take count (content disk))
      × (Works → rest ≡ [])

  read_rows-Dumps :
      (fuel count : ℕ) (offset : ℤ) (disk : fs.State)
      → length (content disk) < fuel
      → Dumps fuel count offset disk
  unfolding read_rows
  read_rows-Dumps zero count offset disk h = absurd (omega arith)
  read_rows-Dumps (suc fuel) zero offset disk h = (disk, [], [], ground arith, tt, refl, λ w. refl)
  read_rows-Dumps (suc fuel) (suc n) offset disk h =
      let step = reader.read (min (suc n) 16) disk in
      elim (Chunk-cases step.1) [
        | inl (e, c) ↦ (
          step.0,
          [],
          take (suc n) (content disk),
          ground (arith, c),
          tt,
          refl,
          λ w. absurd (w (min (suc n) 16) disk e c),
        )
        | inr (inl c) ↦
            let z : content disk ≡ [] = read_end (min (suc n) 16) disk (omega arith) c in
            (step.0, [], [], ground (arith, c), tt, rw z refl, λ w. refl)
        | inr (inr (b, bs, c)) ↦
            let (whole, fits) = read_bytes (min (suc n) 16) disk (b ∷ bs) c in
            let shorter : length (content step.0) < fuel = omega (
              arith,
              h,
              ap (λ (l : List ℕ). length l) whole,
              length-append (b ∷ bs) (content step.0),
            ) in
            let (disk', rows, rest, runs, numbered, shows, complete) =
              read_rows-Dumps fuel (suc n - length (b ∷ bs)) (offset +ℤ pos (length (b ∷ bs)))
                step.0 shorter in
            (
              disk',
              record { offset = offset; row = b ∷ bs } ∷ rows,
              rest,
              ground (arith, c, runs),
              (refl, omega arith, omega (arith, fits), numbered),
              append_assoc (b ∷ bs) (dumped rows) rest
                  ∙ ap (λ (l : List ℕ). (b ∷ bs) ++ l) shows
                  ∙ sym (take-append (suc n) (b ∷ bs) (content step.0) (omega (arith, fits)))
                  ∙ ap (λ (l : List ℕ). take (suc n) l) (sym whole),
              complete,
            )
      ]

  -- `read` of a file that is found, opened and positioned ends, with more fuel than bytes that are
  -- left, and prints the bytes from the position on: in rows of 1 to 16 bytes, numbered from the
  -- offset without gaps, and all of those that were asked for unless a read fails, in which case
  -- what is printed is their beginning. Its result is 0.
  pub cmd_read-dumped :
      (fuel : ℕ) (name : Text) (count : Option ℤ) (offset : ℤ) (s : Shell fs) (entry : Dirent)
      → let path = abs_path s.cwd name in
        let opened = reader.open_for_read path s.disk in
        let sought = seek_offset fs reader offset opened.0 in
        fs.stat s.disk path ≡ found entry
        → entry.entry_type ≡ file_entry
        → opened.1 ≡ none
        → sought.1 ≡ none
        → length (content sought.0) < fuel
        → (s' : Shell fs) × (rows : List Row) × (rest : List ℕ) × (cmd_read fs reader fuel name
              count offset s
            ≡ some (s', rows, none))
          × Numbered offset rows
          × (dumped rows ++ rest ≡ take (count_of count) (content sought.0))
          × (Works → rest ≡ [])
  unfolding cmd_read dump
  cmd_read-dumped fuel name count offset s entry found_it file opened sought h =
      let (disk', rows, rest, runs, numbered, shows, complete) =
        read_rows-Dumps fuel (count_of count) offset _ h in
      (
        record s { disk = fs.close disk' },
        rows,
        rest,
        ground (arith, found_it, file, opened, sought, runs),
        numbered,
        shows,
        complete,
      )

  -- `cat` prints the content of a file, or its beginning up to the first error.
  cat_bytes-content :
      (fuel : ℕ) (disk : fs.State)
      → length (content disk) < fuel
      → (disk' : fs.State) × (out : List ℕ) × (rest : List ℕ) × (cat_bytes fs reader fuel disk
          ≡ some (disk', out))
        × (out ++ rest ≡ content disk)
        × (Works → rest ≡ [])
  unfolding cat_bytes
  cat_bytes-content zero disk h = absurd (omega arith)
  cat_bytes-content (suc fuel) disk h =
      let step = reader.read buf_cnt disk in
      elim (Chunk-cases step.1) [
        | inl (e, c) ↦
            (step.0, [], content disk, ground (arith, c), refl, λ w. absurd (w buf_cnt disk e c))
        | inr (inl c) ↦
            let z : content disk ≡ [] = read_end buf_cnt disk (omega arith) c in
            (step.0, [], [], ground (arith, c), rw z refl, λ w. refl)
        | inr (inr (b, bs, c)) ↦
            let whole = (read_bytes buf_cnt disk (b ∷ bs) c).0 in
            let shorter : length (content step.0) < fuel = omega (
              arith,
              h,
              ap (λ (l : List ℕ). length l) whole,
              length-append (b ∷ bs) (content step.0),
            ) in
            let (disk', out, rest, runs, shows, complete) = cat_bytes-content fuel step.0 shorter in
            (
              disk',
              (b ∷ bs) ++ out,
              rest,
              ground (arith, c, runs),
              append_assoc (b ∷ bs) out rest ∙ ap (λ (l : List ℕ). (b ∷ bs) ++ l) shows ∙ sym whole,
              complete,
            )
      ]
