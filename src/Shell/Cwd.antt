-- ===== src/Shell/Cwd.antt =====
-- The working directory through the commands that change it.
use mymouse.Base.{
  ℕ, zero, suc, ◌<◌, ◌≡◌, refl, false, List, [], ◌∷◌, ◌++◌, ◌==◌, length, take, get_or, replicate,
  length-replicate, AllOf, arith, inl, inr, Bool-cases, Option-cases,
}
use mymouse.Shell.Paths.{Text}
use mymouse.Shell.Buffers.{IsChar, AllOf-append, AllOf-take, length-take_le}
use mymouse.Shell.Join.{join, create_abs_path-join}
use mymouse.Shell.Kernel.{FileSystem}
use mymouse.Shell.{Shell, abs_path, max_path_len, change_to, cmd_cd, parent, last_slash, root}

-- It begins with a slash, and fits its buffer with the NUL.
pub record IsCwd (cwd : Text) : Type 0 where
  pub absolute : get_or cwd 0 0 ≡ b'/'
  pub fits : length cwd < max_path_len
  pub no_nul : AllOf IsChar cwd

-- The string that `create_abs_path` leaves is the full path, cut off after 127 characters.
pub abs_path-join :
    (cwd name : Text)
    → AllOf IsChar cwd
    → AllOf IsChar name
    → abs_path cwd name ≡ take 127 (join cwd name)
unfolding abs_path
abs_path-join cwd name hc hn =
    let (b, is_result, size, text) =
      create_abs_path-join cwd name 127 (replicate max_path_len 0) hc hn (omega arith)
        (length-replicate {A = ℕ} max_path_len 0) in
    rw is_result text

AllOf-join : (cwd name : Text) → AllOf IsChar cwd → AllOf IsChar name → AllOf IsChar (join cwd name)
AllOf-join cwd name hc hn =
    let deep : AllOf IsChar (cwd ++ b'/' ∷ name) = AllOf-append cwd (b'/' ∷ name) hc (refl, hn) in
    ground (arith, hn, deep)

join-absolute : (cwd name : Text) → get_or cwd 0 0 ≡ b'/' → get_or (join cwd name) 0 0 ≡ b'/'
join-absolute [] name h = ground (arith, h)
join-absolute (c ∷ cwd) name h = ground (arith, h)

take-absolute : (n : ℕ) (s : Text) → get_or s 0 0 ≡ b'/' → get_or (take (suc n) s) 0 0 ≡ b'/'
take-absolute n [] h = h
take-absolute n (c ∷ s) h = h

abs_path-IsCwd : (cwd name : Text) → IsCwd cwd → AllOf IsChar name → IsCwd (abs_path cwd name)
abs_path-IsCwd cwd name h hn = rw (abs_path-join cwd name h.no_nul hn) (record {
  absolute = take-absolute 126 (join cwd name) (join-absolute cwd name h.absolute);
  fits = omega (arith, length-take_le 127 (join cwd name));
  no_nul = AllOf-take 127 (join cwd name) (AllOf-join cwd name h.no_nul hn);
})

root-IsCwd : IsCwd root
root-IsCwd = record { absolute = refl; fits = omega arith; no_nul = (refl, tt) }

take-IsCwd : (n : ℕ) (cwd : Text) → IsCwd cwd → (n == 0) ≡ false → IsCwd (take n cwd)
take-IsCwd zero cwd h e = ground (arith, e)
take-IsCwd (suc n) cwd h e = record {
  absolute = take-absolute n cwd h.absolute;
  fits = omega (arith, length-take_le (suc n) cwd, h.fits);
  no_nul = AllOf-take (suc n) cwd h.no_nul;
}

parent-IsCwd : (cwd : Text) → IsCwd cwd → IsCwd (parent cwd)
unfolding parent
parent-IsCwd cwd h = elim (Option-cases (last_slash cwd)) [
  | inl e ↦ rw (e, parent) root-IsCwd
  | inr (i, e) ↦ elim (Bool-cases (i == 0)) [
    | inl z ↦ rw (e, parent, z) root-IsCwd
    | inr z ↦ rw (e, parent, z) (take-IsCwd i cwd h z)
  ]
]

module _ (fs : FileSystem) where
  abbrev pub run_cd : List (List Text) → Shell fs → Shell fs
  run_cd [] s = s
  run_cd (args ∷ rest) s = run_cd rest (cmd_cd fs args s).0

  change_to-IsCwd :
      (path : Text) (s : Shell fs) → IsCwd path → IsCwd s.cwd → IsCwd (change_to fs path s).0.cwd
  unfolding change_to
  change_to-IsCwd path s hp hs = ground (arith, hp, hs)

  cmd_cd-IsCwd :
      (args : List Text) (s : Shell fs)
      → AllOf (AllOf IsChar) args
      → IsCwd s.cwd
      → IsCwd (cmd_cd fs args s).0.cwd
  unfolding cmd_cd
  cmd_cd-IsCwd [] s ha h = root-IsCwd
  cmd_cd-IsCwd (name ∷ args) s (hn, ha) h = ground (
    arith,
    parent-IsCwd s.cwd h,
    change_to-IsCwd (abs_path s.cwd name) s (abs_path-IsCwd s.cwd name h hn) h,
  )

  -- Whatever directories are changed to, and whatever the file system answers: the working directory
  -- begins with a slash and fits its buffer of 128 bytes, with the NUL. The arguments hold no NUL.
  pub cmd_cd-IsCwd_all :
      (calls : List (List Text)) (s : Shell fs)
      → AllOf (AllOf (AllOf IsChar)) calls
      → IsCwd s.cwd
      → IsCwd (run_cd calls s).cwd
  cmd_cd-IsCwd_all [] s ha h = h
  cmd_cd-IsCwd_all (args ∷ calls) s (ha, hs) h =
      cmd_cd-IsCwd_all calls (cmd_cd fs args s).0 hs (cmd_cd-IsCwd args s ha h)
