-- ===== src/Shell/Kernel.antt =====
-- What the commands of the file system shell call of the kernel's file system, with the file that
-- they have open as part of the file system's state, and strtol of the C library. A result of `none`
-- is 0.
use mymouse.Base.{ℕ, List, Option, Errno, Ret}
use mymouse.Base.Int.{ℤ}
use mymouse.Shell.Paths.{Text}

pub data EntryType : Type 0 where
  file_entry dir_entry : EntryType

pub record Dirent : Type 0 where
  pub entry_type : EntryType
  pub name : Text

-- The flags of fs_open, and from where fs_seek counts.
pub data Flags : Type 0 where
  for_write for_create_and_write : Flags

pub data Whence : Type 0 where
  seek_set seek_end : Whence

pub data Stat : Type 0 where
  found : Dirent → Stat
  not_found : Errno → Stat

pub record FileSystem : Type 1 where
  pub State : Type 0
  pub stat : State → Text → Stat
  pub opendir : State → Text → Option Errno
  -- What fs_readdir gives one by one up to the empty name, or up to the error.
  pub entries : State → Text → List Dirent × Option Errno
  pub open_file : Text → Flags → State → State × Option Errno
  pub truncate : ℤ → State → State × Option Errno
  pub seek : ℤ → Whence → State → State × Option Errno
  pub write : List ℕ → State → State × Ret
  pub close : State → State
  pub mkdir : Text → State → State × Option Errno
  pub unlink : Text → State → State × Option Errno
  pub statvfs : State → Text → Option Errno
  pub mount : Text → State → State × Option Errno
  pub strtol : Text → ℕ → ℤ
