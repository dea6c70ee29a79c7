-- ===== src/Log/Kernel.antt =====
-- What the log backend calls of the kernel's file system, with the file that it has open as part of
-- the file system's state. A result of `none` is 0.
use mymouse.Base.{
  ℕ, Bool, true, false, ◌≡◌, List, Option, none, some, Errno, enoent, Ret, if◌then◌else◌,
}
use mymouse.Log.Names.{Text, Dirent, same_text}

pub record FileSystem : Type 1 where
  pub State : Type 0
  pub mounts : State → List Text  -- what fs_readmount gives one by one
  pub opendir : State → Text → Option Errno
  -- What fs_readdir gives one by one up to the empty name, or up to the error.
  pub entries : State → Text → List Dirent × Option Errno
  pub closedir : State → Option Errno
  pub mkdir : Text → State → State × Option Errno
  pub unlink : Text → State → State × Option Errno
  pub statvfs : State → Text → Option Errno
  pub create : Text → State → State × Option Errno  -- fs_open, FS_O_CREATE | FS_O_WRITE
  pub close : State → State
  pub tell : State → Ret
  pub write : List ℕ → State → State × Ret
  pub sync : State → State × Option Errno

-- What the file system documents of fs_unlink, for the files that are there: it deletes the named
-- file and no other, and an absent one is the error ENOENT and changes nothing.
pub record Unlinks (fs : FileSystem) : Type 0 where
  pub has : fs.State → Text → Bool
  pub unlink_absent : (s : fs.State) (p : Text) → has s p ≡ false → fs.unlink p s ≡ (s, some enoent)
  pub unlink_present : (s : fs.State) (p : Text) → has s p ≡ true → (fs.unlink p s).1 ≡ none
  pub unlink_has :
      (s : fs.State) (p q : Text)
      → has s p ≡ true
      → has (fs.unlink p s).0 q ≡ (if same_text p q then false else has s q)
