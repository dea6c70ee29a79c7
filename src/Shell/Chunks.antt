-- ===== src/Shell/Chunks.antt =====
-- The chunks in which `cmd_write` writes its arguments.
use mathlib.Core.List.{append_assoc}
use mymouse.Base.{
  ℕ, ◌+◌, ◌≤◌, ◌<◌, ◌≡◌, refl, ◌∙◌, ap, true, ◌||◌, List, [], ◌∷◌, ◌++◌, Option, none, some, ◌==◌,
  if◌then◌else◌, length, length-append, map, AllOf, Errno, enoexec, ok, err, arith, inl, inr,
  Bool-cases,
}
use mymouse.Shell.Paths.{Text}
use mymouse.Shell.Kernel.{FileSystem}
use mymouse.Shell.{byte_of, is_last, buf_cnt, write_args}

abbrev pub concat : List (List ℕ) → List ℕ
concat [] = []
concat (c ∷ cs) = c ++ concat cs

module _ (fs : FileSystem) where
  -- The chunks one after the other, up to the first error.
  abbrev pub write_all : List (List ℕ) → fs.State → fs.State × Option Errno
  write_all [] disk = (disk, none)
  write_all (c ∷ cs) disk =
      let (disk', written) = fs.write c disk in
      let rest = write_all cs disk' in elim written [ err e ↦ (disk', some enoexec) | ok n ↦ rest ]

  unfoldable chunks : List ℕ → List Text → List (List ℕ)
  chunks buf [] = []
  chunks buf (arg ∷ args) =
      let buf' = buf ++ byte_of fs arg ∷ [] in
      let flushed = chunks [] args in
      let kept = chunks buf' args in
      if (length buf' == buf_cnt) || is_last fs args then buf' ∷ flushed else kept

  write_args-write_all :
      (buf : List ℕ) (args : List Text) (disk : fs.State)
      → write_args fs buf args disk ≡ write_all (chunks buf args) disk
  unfolding write_args chunks
  write_args-write_all buf [] disk = refl
  write_args-write_all buf (arg ∷ args) disk =
      let buf' = buf ++ byte_of fs arg ∷ [] in
      ground (
        arith,
        write_args-write_all [] args (fs.write buf' disk).0,
        write_args-write_all buf' args disk,
      )

  abbrev pub IsChunk : List ℕ → Type 0
  IsChunk c = (0 < length c) × (length c ≤ buf_cnt)

  chunks-IsChunk :
      (buf : List ℕ) (args : List Text) → length buf < buf_cnt → AllOf IsChunk (chunks buf args)
  unfolding chunks
  chunks-IsChunk buf [] p = tt
  chunks-IsChunk buf (arg ∷ args) p =
      let buf' = buf ++ byte_of fs arg ∷ [] in
      let size : length buf' ≡ length buf + 1 = length-append buf (byte_of fs arg ∷ []) in
      elim (Bool-cases ((length buf' == buf_cnt) || is_last fs args)) [
        | inl e ↦
            rw e
              ((omega (arith, size), omega (arith, size, p)), chunks-IsChunk [] args (omega arith))
        | inr e ↦ rw e (chunks-IsChunk buf' args (ground (arith, e, size, p)))
      ]

  concat-chunks :
      (buf : List ℕ) (args : List Text)
      → (is_last fs args ≡ true → buf ≡ [])
      → concat (chunks buf args) ≡ buf ++ map (byte_of fs) args
  unfolding chunks
  concat-chunks buf [] h = rw (h refl) refl
  concat-chunks buf (arg ∷ args) h =
      let buf' = buf ++ byte_of fs arg ∷ [] in
      let assoc = append_assoc buf (byte_of fs arg ∷ []) (map (byte_of fs) args) in
      elim (Bool-cases ((length buf' == buf_cnt) || is_last fs args)) [
        | inl e ↦ rw e (ap (λ l. buf' ++ l) (concat-chunks [] args (λ l. refl)) ∙ assoc)
        | inr e ↦ rw e (concat-chunks buf' args (λ l. ground (arith, e, l)) ∙ assoc)
      ]

  -- The loop of `cmd_write` writes the bytes that its arguments stand for, each once and in order:
  -- in chunks of 1 to 64 bytes, one after the other up to the first error.
  write_args-chunks :
      (args : List Text) (disk : fs.State)
      → (cs : List (List ℕ)) × (concat cs ≡ map (byte_of fs) args)
        × AllOf IsChunk cs
        × (write_args fs [] args disk ≡ write_all cs disk)
  write_args-chunks args disk = (
    chunks [] args,
    concat-chunks [] args (λ l. refl),
    chunks-IsChunk [] args (omega arith),
    write_args-write_all [] args disk,
  )
