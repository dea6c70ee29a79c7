-- ===== src/Shell/Tests.antt =====
-- The shell on a file system where every directory is there, and what is written is kept.
use mymouse.Base.{ℕ, ◌≡◌, refl, List, [], ◌∷◌, none, some, length, ok, arith}
use mymouse.Base.Int.{pos}
use mymouse.Shell.Paths.{Text, c_string, create_abs_path, copy_to, append_name}
use mymouse.Shell.Join.{create_abs_path-join}
use mymouse.Shell.Kernel.{FileSystem, found, dir_entry}
use mymouse.Shell.{
  Shell, cmd_cd, cmd_write, write_from, write_args, abs_path, change_to, parent, root,
}
use mymouse.Shell.Cwd.{IsCwd, run_cd, cmd_cd-IsCwd_all}

abbrev memory : FileSystem
memory = record {
  State = List (List ℕ);
  stat = λ s p. found (record { entry_type = dir_entry; name = p });
  opendir = λ s p. none;
  entries = λ s p. ([], none);
  open_file = λ p f s. (s, none);
  truncate = λ n s. (s, none);
  seek = λ n w s. (s, none);
  write = λ bytes s. (bytes ∷ s, ok (length bytes));
  close = λ s. s;
  mkdir = λ p s. (s, none);
  unlink = λ p s. (s, none);
  statvfs = λ s p. none;
  mount = λ p s. (s, none);
  strtol = λ t base. pos (length t);
}

abbrev shell : Shell memory
shell = record { cwd = root; littlefs_mnt = none; disk = [] }

-- The directory `a`.
abbrev a : Text
a = b'a' ∷ []

abbrev dot_dot : Text
dot_dot = b'.' ∷ b'.' ∷ []

up_and_down : (run_cd memory ((a ∷ []) ∷ (a ∷ []) ∷ (dot_dot ∷ []) ∷ []) shell).cwd ≡ b'/' ∷ a
unfolding cmd_cd parent change_to abs_path create_abs_path copy_to append_name
up_and_down = refl

writes : (cmd_write memory a a (dot_dot ∷ []) shell).0.disk ≡ (1 ∷ 2 ∷ []) ∷ []
unfolding cmd_write write_from write_args abs_path create_abs_path copy_to append_name
writes = refl

create_abs_path-join_example :
    (b : List ℕ) × (create_abs_path (b'/' ∷ a) a 4 (9 ∷ 9 ∷ 9 ∷ 9 ∷ []) ≡ some b)
    × (length b ≡ 4)
    × (c_string b ≡ b'/' ∷ b'a' ∷ b'/' ∷ [])
create_abs_path-join_example =
    create_abs_path-join (b'/' ∷ a) a 3 (9 ∷ 9 ∷ 9 ∷ 9 ∷ []) (refl, (refl, tt)) (refl, tt)
      (omega arith) refl

shell-IsCwd : IsCwd shell.cwd
shell-IsCwd = record { absolute = refl; fits = omega arith; no_nul = (refl, tt) }

cmd_cd-IsCwd_all_example : IsCwd (run_cd memory ((a ∷ []) ∷ (dot_dot ∷ []) ∷ []) shell).cwd
cmd_cd-IsCwd_all_example =
    cmd_cd-IsCwd_all memory ((a ∷ []) ∷ (dot_dot ∷ []) ∷ []) shell
      (((refl, tt), tt), (((refl, (refl, tt)), tt), tt)) shell-IsCwd
