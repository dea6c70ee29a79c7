-- ===== src/Shell.antt =====
-- modules/my_fs_shell/zephyr/shell.c: the working directory, and the commands that take a path. The
-- arguments of a command are a list without the command's own name; what a command prints besides
-- error messages is part of its result. A result of `none` is 0.
pub mod Paths
pub mod Buffers
pub mod Join
pub mod Kernel
pub mod Cwd
pub mod Chunks
pub mod Read
mod Tests
use mymouse.Base.{
  ℕ, zero, suc, ◌+◌, Bool, true, false, ◌&&◌, ◌||◌, List, [], ◌∷◌, ◌++◌, Option, none, some, ◌==◌,
  if◌then◌else◌, length, take, replicate, map, Errno, enoexec, ebusy, ok, err,
}
use mymouse.Base.Int.{ℤ, pos, negsuc, wrap}
use Paths.{Text, c_string, create_abs_path}
use Kernel.{
  FileSystem, Dirent, EntryType, dir_entry, file_entry, found, not_found, for_write,
  for_create_and_write, seek_set, seek_end,
}

abbrev pub buf_cnt : ℕ
buf_cnt = 64

abbrev pub max_path_len : ℕ
max_path_len = 128

-- The string that `create_abs_path` leaves in the buffer of a command. (What the buffer held does
-- not matter, and no byte is written outside of it.)
abbrev pub path_in : Option (List ℕ) → Text
path_in none = []
path_in (some b) = c_string b

unfoldable pub abs_path : Text → Text → Text
abs_path cwd name = path_in (create_abs_path cwd name max_path_len (replicate max_path_len 0))

-- `strrchr(cwd, '/')`: the position of the last slash.
abbrev pub last_slash : Text → Option ℕ
last_slash [] = none
last_slash (c ∷ s) = elim (last_slash s) [
  | some i ↦ some (suc i)
  | none ↦ if c == b'/' then some 0 else none
]

abbrev pub is_dot_dot : Text → Bool
is_dot_dot [] = false
is_dot_dot (c ∷ []) = false
is_dot_dot (c ∷ d ∷ []) = (c == b'.') && (d == b'.')
is_dot_dot (c ∷ d ∷ e ∷ s) = false

abbrev pub is_option_o : Text → Bool
is_option_o [] = false
is_option_o (c ∷ []) = false
is_option_o (c ∷ d ∷ []) = (c == b'-') && (d == b'o')
is_option_o (c ∷ d ∷ e ∷ s) = false

abbrev pub is_dir : EntryType → Bool
is_dir dir_entry = true
is_dir file_entry = false

abbrev pub root : Text
root = b'/' ∷ []

-- The directory above.
unfoldable pub parent : Text → Text
parent cwd = elim (last_slash cwd) [ none ↦ root | some i ↦ if i == 0 then root else take i cwd ]

module _ (fs : FileSystem) where
  open fs use {
    State, stat, opendir, entries, open_file, truncate, seek, write, close, mkdir, unlink, statvfs,
    mount, strtol,
  }

  pub record Shell : Type 0 where
    pub cwd : Text
    pub littlefs_mnt : Option Text  -- littlefs_mnt.mnt_point
    pub disk : State

  abbrev pub or_noexec : Option Errno → Option Errno
  or_noexec none = none
  or_noexec (some e) = some enoexec

  unfoldable pub change_to : Text → Shell → Shell × Option Errno
  change_to path s = elim (stat s.disk path) [
    | not_found e ↦ (s, some enoexec)
    | found entry ↦
        if is_dir entry.entry_type then (record s { cwd = path }, none) else (s, some enoexec)
  ]

  unfoldable pub cmd_cd : List Text → Shell → Shell × Option Errno
  cmd_cd [] s = (record s { cwd = root }, none)
  cmd_cd (name ∷ args) s =
      if is_dot_dot name
      then (record s { cwd = parent s.cwd }, none)
      else change_to (abs_path s.cwd name) s

  abbrev pub line_of : Dirent → Text
  line_of entry = entry.name ++ (if is_dir entry.entry_type then root else [])

  abbrev pub list_dir : Text → Shell → List Text × Option Errno
  list_dir path s = elim (opendir s.disk path) [
    | some e ↦ ([], some enoexec)
    | none ↦ (map line_of (entries s.disk path).0, none)
  ]

  unfoldable pub cmd_ls : List Text → Shell → List Text × Option Errno
  cmd_ls [] s = list_dir s.cwd s
  cmd_ls (name ∷ args) s = list_dir (abs_path s.cwd name) s

  abbrev pub cmd_pwd : Shell → List Text × Option Errno
  cmd_pwd s = (s.cwd ∷ [], none)

  abbrev pub length_of : List Text → ℤ
  length_of [] = pos 0
  length_of (arg ∷ args) = strtol arg 0

  unfoldable pub cmd_trunc : Text → List Text → Shell → Shell × Option Errno
  cmd_trunc name args s =
      let (disk, rc) = open_file (abs_path s.cwd name) for_write s.disk in
      let (disk', rc') = truncate (length_of args) disk in
      elim rc [
        | some e ↦ (record s { disk = disk }, some enoexec)
        | none ↦ (record s { disk = close disk' }, or_noexec rc')
      ]

  unfoldable pub cmd_mkdir : Text → Shell → Shell × Option Errno
  cmd_mkdir name s =
      let (disk, rc) = mkdir (abs_path s.cwd name) s.disk in
      (record s { disk = disk }, or_noexec rc)

  unfoldable pub cmd_rm : Text → Shell → Shell × Option Errno
  cmd_rm name s =
      let (disk, rc) = unlink (abs_path s.cwd name) s.disk in
      (record s { disk = disk }, or_noexec rc)

  unfoldable pub cmd_statvfs : Text → Shell → Option Errno
  cmd_statvfs name s = or_noexec (statvfs s.disk (abs_path s.cwd name))

  abbrev pub byte_of : Text → ℕ
  byte_of arg = wrap 8 (strtol arg 16)

  abbrev pub is_last : List Text → Bool
  is_last [] = true
  is_last (arg ∷ args) = false

  -- The loop of `cmd_write`: `buf` holds the `buf_len` bytes that are not written yet.
  unfoldable pub write_args : List ℕ → List Text → State → State × Option Errno
  write_args buf [] disk = (disk, none)
  write_args buf (arg ∷ args) disk =
      let buf' = buf ++ byte_of arg ∷ [] in
      let (disk', written) = write buf' disk in
      let flushed = write_args [] args disk' in
      let kept = write_args buf' args disk in
      if (length buf' == buf_cnt) || is_last args
      then elim written [ err e ↦ (disk', some enoexec) | ok n ↦ flushed ]
      else kept

  abbrev pub seek_to : ℤ → State → State × Option Errno
  seek_to (negsuc n) disk = seek (pos 0) seek_end disk
  seek_to (pos n) disk = seek (pos n) seek_set disk

  unfoldable pub write_from : Text → ℤ → List Text → Shell → Shell × Option Errno
  write_from name offset args s =
      let (disk, rc) = open_file (abs_path s.cwd name) for_create_and_write s.disk in
      let (disk', rc') = seek_to offset disk in
      let (disk'', rc'') = write_args [] args disk' in
      elim rc [
        | some e ↦ (record s { disk = disk }, some enoexec)
        | none ↦ elim rc' [
          | some e ↦ (record s { disk = close disk' }, some enoexec)
          | none ↦ (record s { disk = close disk'' }, rc'')
        ]
      ]

  -- The shell calls it with two arguments at least.
  unfoldable pub cmd_write : Text → Text → List Text → Shell → Shell × Option Errno
  cmd_write name first [] s =
      if is_option_o first then (s, some enoexec) else write_from name (negsuc 0) (first ∷ []) s
  cmd_write name first (second ∷ args) s =
      if is_option_o first
      then write_from name (strtol second 0) args s
      else write_from name (negsuc 0) (first ∷ second ∷ args) s

  -- Whether the memory for the copy of the name was allocated is the first argument.
  unfoldable pub cmd_mount_littlefs : Bool → Text → Shell → Shell × Option Errno
  cmd_mount_littlefs allocated name s = elim s.littlefs_mnt [
    | some point ↦ (s, some ebusy)
    | none ↦
        let (disk, rc) = mount name s.disk in
        if allocated
        then (record s { littlefs_mnt = some name; disk = disk }, or_noexec rc)
        else (s, some enoexec)
  ]
