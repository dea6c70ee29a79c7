-- ===== src/Shell/Read/Tests.antt =====
-- The dump of a file of 20 bytes, from the third one on.
use mymouse.Base.{
  ℕ, zero, suc, ◌≡◌, ◌≤◌, ◌<◌, refl, ap, List, [], ◌∷◌, ◌++◌, some, none, length, take, drop, ok,
  arith,
}
use mymouse.Base.Int.{ℤ, pos, negsuc}
use mymouse.Shell.Kernel.{FileSystem, found, file_entry}
use mymouse.Shell.{Shell, root, abs_path}
use mymouse.Shell.Read.{Chunk, bytes, failed, Reader, Row, cmd_read}
use mymouse.Shell.Read.Whole.{IsReader, Numbered, dumped, Works, cmd_read-dumped}

abbrev numbers : ℕ → ℕ → List ℕ
numbers zero n = []
numbers (suc k) n = n ∷ numbers k (suc n)

abbrev seek_in_file : ℤ → List ℕ → List ℕ
seek_in_file (pos n) left = drop n left
seek_in_file (negsuc n) left = left

-- The state is what is left of the one file.
abbrev one_file : FileSystem
one_file = record {
  State = List ℕ;
  stat = λ s p. found (record { entry_type = file_entry; name = p });
  opendir = λ s p. none;
  entries = λ s p. ([], none);
  open_file = λ p f s. (s, none);
  truncate = λ n s. (s, none);
  seek = λ n w s. (seek_in_file n s, none);
  write = λ b s. (s, ok (length b));
  close = λ s. s;
  mkdir = λ p s. (s, none);
  unlink = λ p s. (s, none);
  statvfs = λ s p. none;
  mount = λ p s. (s, none);
  strtol = λ t base. pos (length t);
}

abbrev reader : Reader one_file
reader = record {
  open_for_read = λ p s. (numbers 20 65, none);
  read = λ n s. (drop n s, bytes (take n s));
}

abbrev bytes_of : Chunk → List ℕ
bytes_of (bytes bs) = bs
bytes_of (failed e) = []

take_drop : (n : ℕ) (xs : List ℕ) → xs ≡ take n xs ++ drop n xs
take_drop zero xs = refl
take_drop (suc n) [] = refl
take_drop (suc n) (x ∷ xs) = ap (λ (l : List ℕ). x ∷ l) (take_drop n xs)

length-take : (n : ℕ) (xs : List ℕ) → length (take n xs) ≤ n
length-take zero xs = omega arith
length-take (suc n) [] = omega arith
length-take (suc n) (x ∷ xs) = omega (arith, length-take n xs)

nothing_left : (n : ℕ) (xs : List ℕ) → 0 < n → take n xs ≡ [] → xs ≡ []
nothing_left zero xs p e = absurd (omega arith)
nothing_left (suc n) [] p e = refl
nothing_left (suc n) (x ∷ xs) p e = cc

reader-IsReader : IsReader one_file reader
reader-IsReader = record {
  content = λ s. s;
  read_bytes = λ n s bs e.
      let e' : take n s ≡ bs = ap bytes_of e in rw (← e') (take_drop n s, length-take n s);
  read_end = λ n s p e. nothing_left n s p (ap bytes_of e);
}

abbrev shell : Shell one_file
shell = record { cwd = root; littlefs_mnt = none; disk = [] }

cmd_read-dumped_example :
    (s' : Shell one_file) × (rows : List Row) × (rest : List ℕ) × (cmd_read one_file reader 100 root
        (some (pos 17))
        (pos 2)
        shell
      ≡ some (s', rows, none))
    × Numbered (pos 2) rows
    × (dumped rows ++ rest ≡ numbers 17 67)
    × (Works one_file reader reader-IsReader → rest ≡ [])
unfolding reader-IsReader
cmd_read-dumped_example =
    cmd_read-dumped one_file reader reader-IsReader 100 root (some (pos 17)) (pos 2) shell
      (record { entry_type = file_entry; name = abs_path root root }) refl refl refl refl
      (omega arith)
