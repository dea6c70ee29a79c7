-- ===== src/Log/Delete.antt =====
-- What `del_oldest_log` deletes, for a file system that keeps what is documented of fs_unlink.
use mymouse.Base.{
  ℕ, zero, suc, ◌≤◌, ◌<◌, ◌≡◌, ◌≢◌, refl, sym, ◌∙◌, ap, ap₂, Bool, true, false, [], ◌∷◌, ◌++◌, none,
  some, Bool-cases, inl, inr, ◌==◌, if◌then◌else◌, arith,
}
use mymouse.Base.Int.{pos, ◌-ℤ◌}
use mymouse.Log.Names.{Text, same_text, same_text_refl, numeral, max_file_numeral}
use mymouse.Log.Kernel.{FileSystem, Unlinks}
use mymouse.Log.Files.{Config, Log, path_of, del_oldest_log, rounds, succ_numeral}
use mymouse.Log.Circle.{
  after, after_zero, succ_numeral-after, after-succ_numeral, distance, after-distance, distance_le,
  after_le, succ_numeral_le, first,
}

same_text-append : (s a b : Text) → same_text (s ++ a) (s ++ b) ≡ same_text a b
same_text-append [] a b = refl
same_text-append (c ∷ s) a b = ground (arith, same_text-append s a b)

same_text-numeral :
    (m n : ℕ) → m ≤ 9999 → n ≤ 9999 → m ≢ n → same_text (numeral m) (numeral n) ≡ false
unfolding numeral
same_text-numeral m n p q h = ground arith

module _ (config : Config) where
  same_text-path_of :
      (m n : ℕ) → m ≤ 9999 → n ≤ 9999 → same_text (path_of config m) (path_of config n) ≡ (n == m)
  same_text-path_of m n p q = elim (Bool-cases (n == m)) [
    | inl e ↦
        let eq : n ≡ m = ground (arith, e) in
        rw (eq, same_text_refl (path_of config m)) (ground arith)
    | inr e ↦
        same_text-append config.dir _ _
        ∙ same_text-append config.file_prefix (numeral m) (numeral n)
        ∙ same_text-numeral m n p q (λ eq. ground (arith, e))
        ∙ sym e
  ]

module _ (fs : FileSystem) (config : Config) where
  -- The log after the deletion of the file with number `m`, where `n` is the next oldest.
  abbrev pub deleted : ℕ → ℕ → Log fs → Log fs
  deleted m n log = record log {
    disk = (fs.unlink (path_of config m) log.disk).0;
    oldest = n;
    file_ctr = log.file_ctr -ℤ pos 1;
  }

module _ (fs : FileSystem) (u : Unlinks fs) (config : Config) where
  open u use {has, unlink_absent, unlink_present, unlink_has}

  unfoldable has_log : fs.State → ℕ → Bool
  has_log disk n = has disk (path_of config n)

  del_oldest_log_present :
      (fuel : ℕ) (log : Log fs)
      → has_log log.disk log.oldest ≡ true
      → del_oldest_log fs config (suc fuel) log
        ≡ some (deleted fs config log.oldest (succ_numeral log.oldest) log, none)
  unfolding del_oldest_log has_log
  del_oldest_log_present fuel log h =
      ground (arith, unlink_present log.disk (path_of config log.oldest) h)

  del_oldest_log_absent :
      (fuel : ℕ) (log : Log fs)
      → has_log log.disk log.oldest ≡ false
      → del_oldest_log fs config (suc fuel) log
        ≡ del_oldest_log fs config fuel (record log { oldest = succ_numeral log.oldest })
  unfolding del_oldest_log has_log
  del_oldest_log_absent fuel log h =
      ground (arith, unlink_absent log.disk (path_of config log.oldest) h)

  del_oldest_log-from :
      (fuel d : ℕ) (log : Log fs)
      → d < fuel
      → log.oldest ≤ 9999
      → has_log log.disk (after log.oldest d) ≡ true
      → ((i : ℕ) → i < d → has_log log.disk (after log.oldest i) ≡ false)
      → del_oldest_log fs config fuel log
        ≡ some (deleted fs config (after log.oldest d) (after log.oldest (suc d)) log, none)
  del_oldest_log-from zero d log p q h a = absurd (omega arith)
  del_oldest_log-from (suc fuel) zero log p q h a =
      del_oldest_log_present fuel log (rw (after_zero log.oldest q) at h)
      ∙ ap₂ (λ m n. some (deleted fs config m n log, none)) (sym (after_zero log.oldest q))
          (succ_numeral-after log.oldest q)
  del_oldest_log-from (suc fuel) (suc d) log p q h a =
      let next = record log { oldest = succ_numeral log.oldest } in
      del_oldest_log_absent fuel log (rw (after_zero log.oldest q) at (a 0 (omega arith)))
      ∙ del_oldest_log-from fuel d next (omega arith) (succ_numeral_le log.oldest)
          (rw (after-succ_numeral log.oldest d q) h)
          (λ i r. rw (after-succ_numeral log.oldest i q) (a (suc i) (omega arith)))
      ∙ ap₂ (λ m n. some (deleted fs config m n log, none)) (after-succ_numeral log.oldest d q)
          (after-succ_numeral log.oldest (suc d) q)

  has-unlink :
      (disk : fs.State) (m n : ℕ)
      → m ≤ 9999
      → n ≤ 9999
      → has_log disk m ≡ true
      → has (fs.unlink (path_of config m) disk).0 (path_of config n)
        ≡ (if n == m then false else has disk (path_of config n))
  unfolding has_log
  has-unlink disk m n p q h =
      unlink_has disk (path_of config m) (path_of config n) h
      ∙ ap (λ b. if b then false else has disk (path_of config n))
          (same_text-path_of config m n p q)

  -- If there is a log file at all, `del_oldest_log` returns: it deletes the first one that there is
  -- from `oldest` on, in the circle of the numerals, leaves every other log file where it is,
  -- counts one file less, and the next number is the oldest.
  pub del_oldest_log-first :
      (log : Log fs) (k : ℕ)
      → log.oldest ≤ max_file_numeral
      → k ≤ max_file_numeral
      → has log.disk (path_of config k) ≡ true
      → (d : ℕ) × ((i : ℕ) → i < d → has log.disk (path_of config (after log.oldest i)) ≡ false)
        × (has log.disk (path_of config (after log.oldest d)) ≡ true)
        × (del_oldest_log fs config rounds log
            ≡ some (deleted fs config (after log.oldest d) (after log.oldest (suc d)) log, none))
        × ((n : ℕ)
            → n ≤ max_file_numeral
            → has
                (deleted fs config (after log.oldest d) (after log.oldest (suc d)) log).disk
                (path_of config n)
              ≡ (if n == after log.oldest d then false else has log.disk (path_of config n)))
  unfolding has_log
  del_oldest_log-first log k p q h =
      let f =
        first (λ i. has_log log.disk (after log.oldest i)) (distance log.oldest k)
          (rw (after-distance log.oldest k p q) h) in
      (
        f.place,
        f.before,
        f.present,
        del_oldest_log-from rounds f.place log (omega (arith, f.within, distance_le log.oldest k)) p
            f.present f.before,
        λ n r.
            has-unlink log.disk (after log.oldest f.place) n (after_le log.oldest f.place) r
              f.present,
      )

  -- If there is no log file left, `del_oldest_log` never returns: it goes round the numerals.
  del_oldest_log-none :
      (fuel : ℕ) (log : Log fs)
      → log.oldest ≤ max_file_numeral
      → ((n : ℕ) → n ≤ max_file_numeral → has log.disk (path_of config n) ≡ false)
      → del_oldest_log fs config fuel log ≡ none
  unfolding has_log del_oldest_log
  del_oldest_log-none zero log p h = refl
  del_oldest_log-none (suc fuel) log p h =
      del_oldest_log_absent fuel log (h log.oldest p)
      ∙ del_oldest_log-none fuel (record log { oldest = succ_numeral log.oldest })
          (succ_numeral_le log.oldest) h
