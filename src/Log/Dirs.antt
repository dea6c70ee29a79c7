-- ===== src/Log/Dirs.antt =====
-- The loop over the directories of a path: it ends, for every path and file system.
use mymouse.Base.{
  ℕ, zero, suc, ◌+◌, ◌-◌, ◌≤◌, ◌<◌, ◌≡◌, ◌≢◌, [], ◌∷◌, Option, none, some, Option-cases, Errno, inl,
  inr, arith, length, drop, take,
}
use mathlib.Core.Option.{get_or}
use mymouse.Log.Names.{Text}
use mymouse.Log.Kernel.{FileSystem}
use mymouse.Log.Files.{Config}
use mymouse.Log.{next_slash, make_dir, create_dirs, create_log_dir}

next_slash_le : (i j : ℕ) (s : Text) → next_slash i s ≡ some j → (i ≤ j) × (j < i + length s)
next_slash_le i j [] h = ground (arith, h)
next_slash_le i j (c ∷ s) h = ground (arith, h, next_slash_le (suc i) j s)

length-drop : (n : ℕ) (s : Text) → length (drop n s) ≡ length s - n
length-drop zero s = ground arith
length-drop (suc n) [] = ground arith
length-drop (suc n) (c ∷ s) = ground (arith, length-drop n s)

module _ (fs : FileSystem) (config : Config) where
  create_dirs-none :
      (fuel : ℕ) (path : Text) (next : ℕ) (disk : fs.State)
      → length path < next + fuel
      → next ≤ length path
      → create_dirs fs config fuel path next disk ≢ none
  unfolding create_dirs
  create_dirs-none zero path next disk p q h = ground (arith, p, q)
  create_dirs-none (suc fuel) path next disk p q h =
      let slash = next_slash (suc next) (drop (suc next) path) in
      let step = make_dir fs config (take (get_or slash (length path)) path) disk in
      let next' = get_or slash (length path - 1) in
      elim (Option-cases slash) [
        | inl e ↦ ground (arith, h, e, p, q, create_dirs-none fuel path next' step.0)
        | inr (j, e) ↦ ground (
          arith,
          h,
          e,
          p,
          q,
          next_slash_le (suc next) j (drop (suc next) path) e,
          length-drop (suc next) path,
          create_dirs-none fuel path next' step.0,
        )
      ]

  -- `create_log_dir` ends, for every path and whatever the file system answers: it returns 0, or an
  -- error of the file system. (Each round of its loop goes on to a later slash, or to the last one.)
  create_log_dir-some :
      (path : Text) (disk : fs.State)
      → (r : fs.State × Option Errno) × (create_log_dir fs config path disk ≡ some r)
  unfolding create_log_dir
  create_log_dir-some path disk = elim (Option-cases (create_log_dir fs config path disk)) [
    | inr r ↦ r
    | inl e ↦ elim (Option-cases (next_slash 1 (drop 1 path))) [
      | inl none_there ↦ ground (arith, e, none_there)
      | inr (i, e') ↦ ground (
        arith,
        e,
        e',
        next_slash_le 1 i (drop 1 path) e',
        length-drop 1 path,
        create_dirs-none (suc (length path)) path i disk,
      )
    ]
  ]
