-- ===== src/Shell/Paths.antt =====
-- Strings in buffers, and `create_abs_path` of modules/my_fs_shell/zephyr/shell.c. A string is the
-- list of its characters without the NUL; a buffer is all its bytes. `none` is a write outside of
-- the buffer, or an assertion that fails.
use mymouse.Base.{
  ℕ, zero, suc, ◌+◌, ◌-◌, List, [], ◌∷◌, ◌++◌, Option, none, some, ltb, leb, ◌==◌, if◌then◌else◌,
  length, take, drop, get_or,
}

abbrev pub Text : Type 0
Text = List ℕ

-- strncpy writes all its `n` bytes: the string as far as it goes, and zeros.
abbrev pub pad : ℕ → Text → List ℕ
pad zero s = []
pad (suc n) [] = 0 ∷ pad n []
pad (suc n) (c ∷ s) = c ∷ pad n s

abbrev pub put_at : ℕ → List ℕ → List ℕ → Option (List ℕ)
put_at at bytes buf =
    if leb (at + length bytes) (length buf)
    then some (take at buf ++ bytes ++ drop (at + length bytes) buf)
    else none

-- The string that a buffer holds.
abbrev pub c_string : List ℕ → Text
c_string [] = []
c_string (b ∷ buf) = if b == 0 then [] else b ∷ c_string buf

abbrev pub and_then : Option (List ℕ) → (List ℕ → Option (List ℕ)) → Option (List ℕ)
and_then none f = none
and_then (some b) f = f b

-- strncpy to position `at`, where `len` bytes are left, and a NUL in the last one of these. Where
-- none is left, `path[len - 1]` is the byte before `at`.
unfoldable pub copy_to : ℕ → Text → ℕ → List ℕ → Option (List ℕ)
copy_to at s len buf = and_then (put_at at (pad len s) buf) (put_at (at + len - 1) (0 ∷ []))

unfoldable pub append_name : Text → ℕ → List ℕ → Option (List ℕ)
append_name name len path =
    let plen = length (c_string path) in
    if ltb plen len
    then and_then (put_at plen (b'/' ∷ []) path) (copy_to (plen + 1) name (len - (plen + 1)))
    else some path

-- The buffer of `len` bytes at `path`, after the call. `cwd` is the string in `cwd`.
unfoldable pub create_abs_path : Text → Text → ℕ → List ℕ → Option (List ℕ)
create_abs_path cwd name len path =
    if get_or name 0 0 == b'/'
    then copy_to 0 name len path
    else (if get_or cwd 1 0 == 0
        then (if leb 2 len
            then and_then (put_at 0 (b'/' ∷ []) path) (copy_to 1 name (len - 1))
            else none)
        else and_then (copy_to 0 cwd len path) (append_name name len))
