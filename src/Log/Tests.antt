-- ===== src/Log/Tests.antt =====
-- The log files on a small file system in memory: the paths of its files.
use mymouse.Base.{
  ℕ, ◌≤◌, ◌<◌, ◌≡◌, refl, Bool, true, false, ◌||◌, List, [], ◌∷◌, none, some, enoent, ok,
  if◌then◌else◌, ◌==◌, suc, map, drop, arith,
}
use mymouse.Base.Int.{pos, ◌+ℤ◌, ◌-ℤ◌}
use mymouse.Log.Names.{
  Text, same_text, same_text_refl, file_entry, numeral, get_log_file_id, max_file_numeral, atoi,
  signed_value, digits_value,
}
use mymouse.Log.Kernel.{FileSystem, Unlinks}
use mymouse.Log.Files.{
  Config, Log, is_ok, not_initialized, path_of, del_oldest_log, rounds, allocate_new_file, open_new,
  make_room, search_numbers, narrow, note_id,
}
use mymouse.Log.Circle.{after}
use mymouse.Log.Delete.{deleted, del_oldest_log-first}
use mymouse.Log.{
  create_log_dir, check_log_volumen_available, initialize, write_ready, append, sync_file,
  write_log_to_file,
}

abbrev contains : List Text → Text → Bool
contains [] p = false
contains (q ∷ s) p = same_text q p || contains s p

abbrev remove : Text → List Text → List Text
remove p [] = []
remove p (q ∷ s) = if same_text p q then remove p s else q ∷ remove p s

abbrev memory : FileSystem
memory = record {
  State = List Text;
  mounts = λ s. (b'/' ∷ b'a' ∷ []) ∷ [];
  opendir = λ s p. none;
  entries = λ s p. (map (λ f. record { entry_type = file_entry; name = drop 3 f }) s, none);
  closedir = λ s. none;
  mkdir = λ p s. (s, none);
  unlink = λ p s. if contains s p then (remove p s, none) else (s, some enoent);
  statvfs = λ s p. none;
  create = λ p s. (p ∷ s, none);
  close = λ s. s;
  tell = λ s. ok 0;
  write = λ bytes s. (s, ok 2);
  sync = λ s. (s, none);
}

abbrev config : Config
config = record {
  dir = b'/' ∷ b'a' ∷ [];
  file_prefix = b'l' ∷ [];
  file_size = 100;
  files_limit = 3;
  overwrite = true;
}

abbrev log : Log memory
log = record {
  backend_state = is_ok;
  file_ctr = pos 2;
  newest = 1;
  oldest = 9999;
  disk = path_of config 0 ∷ path_of config 1 ∷ [];
}

same_text_sound : (s t : Text) → same_text s t ≡ true → s ≡ t
same_text_sound [] [] h = refl
same_text_sound [] (d ∷ t) h = ground (arith, h)
same_text_sound (c ∷ s) [] h = ground (arith, h)
same_text_sound (c ∷ s) (d ∷ t) h = ground (arith, h, same_text_sound s t)

contains-remove :
    (s : List Text) (p q : Text)
    → contains (remove p s) q ≡ (if same_text p q then false else contains s q)
contains-remove [] p q = ground arith
contains-remove (r ∷ s) p q = ground (
  arith,
  contains-remove s p q,
  same_text_sound p r,
  same_text_sound r q,
  same_text_sound p q,
  same_text_refl p,
)

memory-Unlinks : Unlinks memory
memory-Unlinks = record {
  has = contains;
  unlink_absent = λ s p h. ground (arith, h);
  unlink_present = λ s p h. ground (arith, h);
  unlink_has = λ s p q h. ground (arith, h, contains-remove s p q);
}

-- Number 9999 is not there, and 0 is deleted.
deletes_0 : (del_oldest_log memory config 3 log) ≡ some (deleted memory config 0 1 log, none)
unfolding del_oldest_log numeral ◌-ℤ◌
deletes_0 = refl

abbrev fresh : Log memory
fresh = record {
  backend_state = not_initialized;
  file_ctr = pos 0;
  newest = 0;
  oldest = 0;
  disk = path_of config 0 ∷ path_of config 1 ∷ path_of config 9999 ∷ [];
}

-- The numbers have wrapped around: 9999 is the oldest, and makes room for 2.
abbrev after_write : Log memory
after_write = record {
  backend_state = is_ok;
  file_ctr = pos 3;
  newest = 2;
  oldest = 0;
  disk = path_of config 2 ∷ path_of config 0 ∷ path_of config 1 ∷ [];
}

first_write : write_log_to_file memory config (5 ∷ 6 ∷ []) fresh ≡ some (after_write, 2)
unfolding write_log_to_file check_log_volumen_available initialize create_log_dir allocate_new_file
    search_numbers note_id narrow get_log_file_id open_new make_room del_oldest_log numeral atoi
    signed_value digits_value write_ready append sync_file ◌-ℤ◌ ◌+ℤ◌
first_write = refl

has_1 : contains log.disk (path_of config 1) ≡ true
unfolding numeral
has_1 = refl

del_oldest_log-first_example :
    (d : ℕ) × ((i : ℕ) → i < d → contains log.disk (path_of config (after 9999 i)) ≡ false)
    × (contains log.disk (path_of config (after 9999 d)) ≡ true)
    × (del_oldest_log memory config rounds log
        ≡ some (deleted memory config (after 9999 d) (after 9999 (suc d)) log, none))
    × ((n : ℕ)
        → n ≤ max_file_numeral
        → contains
            (deleted memory config (after 9999 d) (after 9999 (suc d)) log).disk
            (path_of config n)
          ≡ (if n == after 9999 d then false else contains log.disk (path_of config n)))
unfolding memory-Unlinks numeral
del_oldest_log-first_example =
    del_oldest_log-first memory memory-Unlinks config log 1 (omega arith) (omega arith) has_1
