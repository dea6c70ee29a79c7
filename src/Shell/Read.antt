-- ===== src/Shell/Read.antt =====
-- The commands read and cat of modules/my_fs_shell/zephyr/shell.c. What they print of a file is their
-- result: rows of an offset and up to 16 bytes, or bytes. `Reader` is what they call of the kernel's
-- file system besides `FileSystem`: fs_open with FS_O_READ, and fs_read, which gives at most as many
-- bytes as are asked for, and none at the end of the file.
pub mod Whole
mod Tests
use mymouse.Base.{
  ℕ, zero, suc, ◌+◌, ◌-◌, ◌^◌, Bool, true, false, List, [], ◌∷◌, ◌++◌, Option, none, some, ◌==◌,
  if◌then◌else◌, length, Errno, enoexec, min, ltb, ◌||◌,
}
use mymouse.Base.Int.{ℤ, pos, negsuc, ◌+ℤ◌}
use mymouse.Shell.Paths.{Text}
use mymouse.Shell.Kernel.{FileSystem, found, not_found, seek_set}
use mymouse.Shell.{Shell, abs_path, is_dir, buf_cnt}

pub data Chunk : Type 0 where
  bytes : List ℕ → Chunk
  failed : Errno → Chunk

pub record Reader (fs : FileSystem) : Type 1 where
  pub open_for_read : Text → fs.State → fs.State × Option Errno
  pub read : ℕ → fs.State → fs.State × Chunk

-- A row of the dump.
pub record Row : Type 0 where
  pub offset : ℤ
  pub row : List ℕ

abbrev pub int_max : ℕ
int_max = 2 ^ 31 - 1

-- How many bytes are dumped.
abbrev pub count_of : Option ℤ → ℕ
count_of none = int_max
count_of (some (pos zero)) = int_max
count_of (some (pos (suc n))) = suc n
count_of (some (negsuc n)) = int_max

module _ (fs : FileSystem) (reader : Reader fs) where
  open fs use {State}
  open reader use {read}

  abbrev prepend {ℓ} : {A : Type ℓ} → A → Option (State × List A) → Option (State × List A)
  prepend a none = none
  prepend a (some (disk, rest)) = some (disk, a ∷ rest)

  -- The loop of `cmd_read`, on fuel.
  unfoldable pub read_rows : ℕ → ℕ → ℤ → State → Option (State × List Row)
  read_rows zero count offset disk = none
  read_rows (suc fuel) count offset disk =
      let (disk', chunk) = read (min count 16) disk in
      elim (count == 0) [
        | true ↦ some (disk, [])
        | false ↦ elim chunk [
          | failed e ↦ some (disk', [])
          | bytes [] ↦ some (disk', [])
          | bytes (b ∷ bs) ↦
              prepend (record { offset = offset; row = b ∷ bs })
                (read_rows fuel (count - length (b ∷ bs)) (offset +ℤ pos (length (b ∷ bs))) disk')
        ]
      ]

  -- `offset > 0`.
  abbrev pub is_positive : ℤ → Bool
  is_positive (pos n) = ltb 0 n
  is_positive (negsuc n) = false

  abbrev pub seek_offset : ℤ → State → State × Option Errno
  seek_offset offset disk =
      if is_positive offset then fs.seek offset seek_set disk else (disk, none)

  -- What is printed, and the result; `none` is a loop that has not ended.
  abbrev pub Outcome : Type 0
  Outcome = Option (Shell fs × List Row × Option Errno)

  abbrev pub close_after : Shell fs → Option (State × List Row) → Outcome
  close_after s none = none
  close_after s (some (disk, rows)) = some (record s { disk = fs.close disk }, rows, none)

  -- From the opening on.
  unfoldable pub dump : ℕ → Text → ℕ → ℤ → Shell fs → Outcome
  dump fuel path count offset s =
      let (opened, rc) = reader.open_for_read path s.disk in
      let (sought, rc') = seek_offset offset opened in
      elim rc [
        | some e ↦ some (record s { disk = opened }, [], some enoexec)
        | none ↦ elim rc' [
          | some e ↦ some (record s { disk = fs.close sought }, [], some enoexec)
          | none ↦ close_after s (read_rows fuel count offset sought)
        ]
      ]

  unfoldable pub cmd_read : ℕ → Text → Option ℤ → ℤ → Shell fs → Outcome
  unfolding dump
  cmd_read fuel name count offset s = elim (fs.stat s.disk (abs_path s.cwd name)) [
    | not_found e ↦ some (s, [], some enoexec)
    | found entry ↦
        if is_dir entry.entry_type
        then some (s, [], some enoexec)
        else dump fuel (abs_path s.cwd name) (count_of count) offset s
  ]

  abbrev prepend_all : List ℕ → Option (State × List ℕ) → Option (State × List ℕ)
  prepend_all bs none = none
  prepend_all bs (some (disk, rest)) = some (disk, bs ++ rest)

  -- The loop of `cmd_cat` over one file, on fuel.
  unfoldable pub cat_bytes : ℕ → State → Option (State × List ℕ)
  cat_bytes zero disk = none
  cat_bytes (suc fuel) disk =
      let (disk', chunk) = read buf_cnt disk in
      elim chunk [
        | failed e ↦ some (disk', [])
        | bytes [] ↦ some (disk', [])
        | bytes (b ∷ bs) ↦ prepend_all (b ∷ bs) (cat_bytes fuel disk')
      ]

  abbrev close_file : Option (State × List ℕ) → Option (State × List ℕ)
  close_file none = none
  close_file (some (disk, out)) = some (fs.close disk, out)

  -- An error of one file is printed, and the next one follows.
  unfoldable pub cat_file : ℕ → Text → State → Option (State × List ℕ)
  unfolding cat_bytes
  cat_file fuel path disk = elim (fs.stat disk path) [
    | not_found e ↦ some (disk, [])
    | found entry ↦
        let (opened, rc) = reader.open_for_read path disk in
        if is_dir entry.entry_type
        then some (disk, [])
        else elim rc [ some e ↦ some (opened, []) | none ↦ close_file (cat_bytes fuel opened) ]
  ]

  abbrev then_cat :
      Option (State × List ℕ) → (State → Option (State × List ℕ)) → Option (State × List ℕ)
  then_cat none next = none
  then_cat (some (disk, out)) next = prepend_all out (next disk)

  unfoldable pub cat_files : ℕ → Text → List Text → State → Option (State × List ℕ)
  unfolding cat_file
  cat_files fuel cwd [] disk = some (disk, [])
  cat_files fuel cwd (name ∷ names) disk =
      then_cat (cat_file fuel (abs_path cwd name) disk) (λ d. cat_files fuel cwd names d)

  unfoldable pub cmd_cat : ℕ → List Text → Shell fs → Option (State × List ℕ)
  cmd_cat fuel names s = cat_files fuel s.cwd names s.disk
