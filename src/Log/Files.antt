-- ===== src/Log/Files.antt =====
-- The log files: the search for their numbers, the deletion of the oldest, and a new one.
use mymouse.Base.{
  ℕ, zero, suc, ◌+◌, ◌-◌, ◌*◌, Bool, true, false, not, ◌&&◌, ◌||◌, List, [], ◌∷◌, ◌++◌, Option,
  none, some, ltb, ◌==◌, if◌then◌else◌, Errno, eio, enoent, enospc, Ret, ok, err,
}
use mymouse.Base.Int.{ℤ, pos, negsuc, pos_part, ltb_ℤ, ◌+ℤ◌, ◌-ℤ◌}
use mymouse.Log.Names.{Text, Dirent, numeral, max_file_numeral, get_log_file_id}
use mymouse.Log.Kernel.{FileSystem}

-- The CONFIG_LOG_BACKEND_MY_FS options.
pub record Config : Type 0 where
  pub dir : Text
  pub file_prefix : Text
  pub file_size : ℕ
  pub files_limit : ℕ
  pub overwrite : Bool

pub data BackendState : Type 0 where
  not_initialized corrupted is_ok : BackendState

abbrev pub is_not_initialized : BackendState → Bool
is_not_initialized not_initialized = true
is_not_initialized _ = false

-- The rounds of fuel of `del_oldest_log`: it tries each numeral once.
abbrev pub rounds : ℕ
rounds = 10000

abbrev pub succ_numeral : ℕ → ℕ
succ_numeral n = if ltb max_file_numeral (n + 1) then 0 else n + 1

-- `max`, `min` and `file_ctr` of the first search.
pub record Found : Type 0 where
  pub max_id : ℕ
  pub min_id : ℕ
  pub count : ℤ

module _ (fs : FileSystem) where
  pub record Log : Type 0 where
    pub backend_state : BackendState
    pub file_ctr : ℤ
    pub newest : ℕ
    pub oldest : ℕ
    pub disk : fs.State

module _ (config : Config) where
  -- It fits the buffer of 256 bytes, so that snprintf cuts nothing off.
  abbrev pub path_of : ℕ → Text
  path_of n = config.dir ++ b'/' ∷ (config.file_prefix ++ numeral n)

module _ (fs : FileSystem) (config : Config) where
  open fs use {State, opendir, entries, unlink, statvfs, create, close}

  -- The loop on fuel; `none` if it does not end.
  unfoldable pub del_oldest_log : ℕ → Log fs → Option (Log fs × Option Errno)
  del_oldest_log zero log = none
  del_oldest_log (suc fuel) log =
      let (disk', rc) = unlink (path_of config log.oldest) log.disk in
      let next = record log { disk = disk'; oldest = succ_numeral log.oldest } in
      let again = del_oldest_log fuel next in
      elim rc [
        | none ↦ some (record next { file_ctr = log.file_ctr -ℤ pos 1 }, none)
        | some enoent ↦ again
        | some e ↦ some (record log { disk = disk' }, some e)
      ]

  -- The loop over the directory: the number is 1 if there is a file with that id.
  abbrev pub find_id : ℕ → List Dirent → Bool
  find_id num [] = false
  find_id num (ent ∷ ents) =
      (elim (get_log_file_id config.file_prefix ent) [ pos n ↦ n == num | negsuc n ↦ false ])
      || find_id num ents

  -- The entries before an error are looked at first.
  unfoldable pub check_log_file_exist : ℕ → Log fs → Ret
  check_log_file_exist num log = elim (opendir log.disk config.dir) [
    | some e ↦ err eio
    | none ↦
        if find_id num (entries log.disk config.dir).0
        then ok 1
        else elim ((entries log.disk config.dir).1) [ none ↦ ok 0 | some e ↦ err eio ]
  ]

  unfoldable pub note_id : Dirent → Found → Found
  note_id ent f = elim (get_log_file_id config.file_prefix ent) [
    | negsuc n ↦ f
    | pos n ↦ record {
      max_id = if ltb f.max_id n then n else f.max_id;
      min_id = if ltb n f.min_id then n else f.min_id;
      count = f.count +ℤ pos 1;
    }
  ]

  abbrev pub first_search : List Dirent → Found → Found
  first_search [] f = f
  first_search (ent ∷ ents) f = first_search ents (note_id ent f)

  -- One entry of the second search, for numbers that have wrapped around: `newest` and `oldest`.
  -- An id of -1 passes neither test: `newest` is never negative, and `max` is above the limit.
  unfoldable pub narrow : ℕ → ℕ → Dirent → ℕ × ℕ → ℕ × ℕ
  narrow min max ent (newest, oldest) = elim (get_log_file_id config.file_prefix ent) [
    | negsuc n ↦ (newest, oldest)
    | pos n ↦ (
      if ltb n (min + config.files_limit) && ltb newest n then n else newest,
      if ltb max (n + config.files_limit) && ltb n oldest then n else oldest,
    )
  ]

  abbrev pub second_search : ℕ → ℕ → List Dirent → ℕ × ℕ → ℕ × ℕ
  second_search min max [] found = found
  second_search min max (ent ∷ ents) found = second_search min max ents (narrow min max ent found)

  -- The error of a search: that of the opening, or the one that ends the entries.
  abbrev pub search_error : Log fs → Option Errno
  search_error log = elim (opendir log.disk config.dir) [
    | some e ↦ some e
    | none ↦ (entries log.disk config.dir).1
  ]

  -- The entries that a search sees.
  abbrev pub seen : Log fs → List Dirent
  seen log = elim (opendir log.disk config.dir) [
    | some e ↦ []
    | none ↦ (entries log.disk config.dir).0
  ]

  -- Numbers that lie so far apart have wrapped around.
  abbrev pub is_wrapped : Found → Bool
  is_wrapped f = ltb_ℤ (pos 1) f.count && ltb (2 * config.files_limit) (f.max_id - f.min_id)

  -- The part of `allocate_new_file` before the first use: the number of the new file.
  unfoldable pub search_numbers : Log fs → Log fs × Option Errno × ℕ
  search_numbers log =
      let f =
        first_search (seen log)
          (record { max_id = 0; min_id = max_file_numeral; count = log.file_ctr }) in
      let (new, old) =
        if is_wrapped f
        then second_search f.min_id f.max_id (seen log) (f.min_id, f.max_id)
        else (f.max_id, f.min_id) in
      let found = record log { file_ctr = f.count; newest = new; oldest = old } in
      elim (search_error log) [
        | some e ↦ (found, some e, 0)
        | none ↦ (
          record found { backend_state = is_ok },
          none,
          if ltb_ℤ f.count (pos 1) then new else succ_numeral new,
        )
      ]

  -- The loop that makes room, on fuel.
  unfoldable pub make_room : ℕ → Log fs → Option (Log fs × Option Errno)
  make_room zero log = none
  make_room (suc fuel) log =
      if ltb_ℤ log.file_ctr (pos config.files_limit)
      then some (log, none)
      else (if not config.overwrite
          then some (log, some enospc)
          else elim (del_oldest_log rounds log) [
            | none ↦ none
            | some (log', some e) ↦ some (log', some e)
            | some (log', none) ↦ elim (statvfs log'.disk config.dir) [
              | some e ↦ some (log', some e)
              | none ↦ make_room fuel log'
            ]
          ])

  -- The rest of `allocate_new_file`, for the number of the new file.
  unfoldable pub open_new : ℕ → Log fs → Option (Log fs × Option Errno)
  open_new curr log = elim (make_room (suc (pos_part log.file_ctr)) log) [
    | none ↦ none
    | some (log', some e) ↦ some (log', some e)
    | some (log', none) ↦
        let (disk', rc) = create (path_of config curr) log'.disk in
        elim rc [
          | some e ↦ some (record log' { disk = disk' }, some e)
          | none ↦
              some (
                record log' { disk = disk'; file_ctr = log'.file_ctr +ℤ pos 1; newest = curr },
                none,
              )
        ]
  ]

  unfoldable pub allocate_new_file : Log fs → Option (Log fs × Option Errno)
  allocate_new_file log =
      if is_not_initialized log.backend_state
      then (let (log', error, curr) = search_numbers log in
          elim error [ some e ↦ some (log', some e) | none ↦ open_new curr log' ])
      else open_new (succ_numeral log.newest) (record log { disk = close log.disk })
