-- ===== src/Log.antt =====
-- modules/log_backend_my_fs/zephyr/log_backend_my_fs.c: log files with numbers from 0 to 9999, of
-- which at most a configured count is kept. Paths are lists of character codes. The kernel's file
-- system is the parameter `FileSystem` with the one file that the code has open; a result of `none`
-- is 0, and `Ret` a number or a negative error. The functions of the log output around
-- `write_log_to_file` only pass messages on to the kernel.
pub mod Names
pub mod Kernel
pub mod Files
pub mod Circle
pub mod Delete
pub mod Dirs
mod Tests
use mymouse.Base.{
  ℕ, zero, suc, ◌+◌, ◌*◌, Bool, true, false, not, ◌&&◌, ◌||◌, List, [], ◌∷◌, Option, none, some,
  ltb, ◌==◌, if◌then◌else◌, length, take, drop, ◌-◌, Errno, eio, enoent, Ret, ok, err,
}
use mathlib.Core.Option.{get_or}
use mymouse.Base.Int.{ℤ, pos, ◌+ℤ◌, ◌-ℤ◌}
use Names.{Text}
use Kernel.{FileSystem}
use Files.{
  is_not_initialized, Config, Log, not_initialized, corrupted, is_ok, allocate_new_file,
  del_oldest_log, check_log_file_exist, rounds,
}

abbrev pub is_prefix : Text → Text → Bool
is_prefix [] t = true
is_prefix (c ∷ s) [] = false
is_prefix (c ∷ s) (d ∷ t) = (c == d) && is_prefix s t

-- `strchr` from position `i` on: the position of the next slash.
abbrev pub next_slash : ℕ → Text → Option ℕ
next_slash i [] = none
next_slash i (c ∷ s) = if c == b'/' then some i else next_slash (suc i) s

module _ (fs : FileSystem) (config : Config) where
  open fs use {State, mounts, opendir, closedir, mkdir, tell, write, sync}

  abbrev pub any_mount : List Text → Bool
  any_mount [] = false
  any_mount (name ∷ names) = is_prefix name config.dir || any_mount names

  unfoldable pub check_log_volumen_available : State → Option Errno
  check_log_volumen_available disk = if any_mount (mounts disk) then none else some enoent

  -- The directory, which is made if it cannot be opened.
  unfoldable pub make_dir : Text → State → State × Option Errno
  make_dir w_path disk = elim (opendir disk w_path) [
    | none ↦ (disk, closedir disk)
    | some e ↦
        let (disk', rc) = mkdir w_path disk in
        elim rc [ some e' ↦ (disk', some e') | none ↦ (disk', closedir disk') ]
  ]

  -- The loop from position `next` on, on fuel: one round for each slash.
  unfoldable pub create_dirs : ℕ → Text → ℕ → State → Option (State × Option Errno)
  create_dirs zero path next disk = none
  create_dirs (suc fuel) path next disk =
      let slash = next_slash (suc next) (drop (suc next) path) in
      let (disk', rc) = make_dir (take (get_or slash (length path)) path) disk in
      let next' = get_or slash (length path - 1) in
      let again = create_dirs fuel path next' disk' in
      if ltb (length path - 1) (suc next)
      then some (disk, none)
      else elim rc [ some e ↦ some (disk', some e) | none ↦ again ]

  unfoldable pub create_log_dir : Text → State → Option (State × Option Errno)
  create_log_dir path disk = elim (next_slash 1 (drop 1 path)) [
    | none ↦ some (disk, none)
    | some i ↦ create_dirs (suc (length path)) path i disk
  ]

  -- The first use, where the log volume is there.
  unfoldable pub initialize : Log fs → Option (Log fs)
  initialize log = elim (create_log_dir config.dir log.disk) [
    | none ↦ none
    | some (disk, some e) ↦ some (record log { disk = disk; backend_state = corrupted })
    | some (disk, none) ↦ elim (allocate_new_file fs config (record log { disk = disk })) [
      | none ↦ none
      | some (log', some e) ↦ some (record log' { backend_state = corrupted })
      | some (log', none) ↦ some (record log' { backend_state = is_ok })
    ]
  ]

  -- The end of `write_log_to_file`, with the number that it returns.
  unfoldable pub sync_file : ℕ → Log fs → Log fs × ℕ
  sync_file result log =
      let (disk, rc) = sync log.disk in
      elim rc [
        | none ↦ (record log { disk = disk }, result)
        | some e ↦ (record log { disk = disk; backend_state = corrupted }, result)
      ]

  -- When the write failed.
  unfoldable pub replace_lost_file : ℕ → Log fs → Option (Log fs × ℕ)
  replace_lost_file len log = elim (check_log_file_exist fs config log.newest log) [
    | err e ↦ some (record log { backend_state = corrupted }, len)
    | ok (suc n) ↦ some (sync_file 0 log)
    | ok zero ↦
        elim (allocate_new_file fs config (record log { file_ctr = log.file_ctr -ℤ pos 1 })) [
          | none ↦ none
          | some (log', some e) ↦ some (record log' { backend_state = corrupted }, len)
          | some (log', none) ↦ some (sync_file 0 log')
        ]
  ]

  unfoldable pub append : List ℕ → Log fs → Option (Log fs × ℕ)
  append bytes log =
      let (disk, written) = write bytes log.disk in
      let after = record log { disk = disk } in
      elim written [
        | err e ↦ replace_lost_file (length bytes) after
        | ok n ↦
            if config.overwrite && not (n == length bytes)
            then elim (del_oldest_log fs config rounds after) [
              | none ↦ none
              | some (log', rc) ↦ some (log', 0)
            ]
            else some (sync_file n after)
      ]

  -- The part of `write_log_to_file` for a backend that is ready.
  unfoldable pub write_ready : List ℕ → Log fs → Option (Log fs × ℕ)
  write_ready bytes log = elim (tell log.disk) [
    | err e ↦ some (record log { backend_state = corrupted }, length bytes)
    | ok size ↦
        if ltb config.file_size (size + length bytes)
        then elim (allocate_new_file fs config log) [
          | none ↦ none
          | some (log', some e) ↦ some (record log' { backend_state = corrupted }, length bytes)
          | some (log', none) ↦ append bytes log'
        ]
        else append bytes log
  ]

  abbrev pub write_if_ok : List ℕ → Log fs → Option (Log fs × ℕ)
  write_if_ok bytes log = elim (log.backend_state) [
    | is_ok ↦ write_ready bytes log
    | not_initialized ↦ some (log, length bytes)
    | corrupted ↦ some (log, length bytes)
  ]

  unfoldable pub write_log_to_file : List ℕ → Log fs → Option (Log fs × ℕ)
  write_log_to_file bytes log =
      if is_not_initialized log.backend_state
      then elim (check_log_volumen_available log.disk) [
        | some e ↦ some (log, length bytes)
        | none ↦ elim (initialize log) [ none ↦ none | some log' ↦ write_if_ok bytes log' ]
      ]
      else write_if_ok bytes log
