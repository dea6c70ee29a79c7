-- ===== src/Hid/Shell/Sources.antt =====
-- What the commands enable and disable do to the status of each source.
use native.Mathlib.Decide.{dec_lt}
use mymouse.Base.{
  ℕ, ◌<◌, ◌≡◌, refl, Bool, true, false, not, ◌&&◌, ◌==◌, some, if◌then◌else◌, arith, ltb, ok, err,
  einval,
}
use mymouse.Base.Int.{ℤ, pos, negsuc, ltb_ℤ}
use mymouse.Hid.Collector.{KEvent, Collector, is_source_id_enabled, set_source_id_enabled}
use mymouse.Hid.Collector.Waiting.{IsCollector, set_source_id_enabled-bits}
use mymouse.Hid.Shell.{Status, enabled, disabled, source_id_status, cmd_enable_disable}

abbrev pub is_id : ℤ → ℕ → Bool
is_id (pos i) j = i == j
is_id (negsuc n) j = false

module _ (kernel : KEvent) (num_sources : ℕ) (hid_src_shell : ℤ) where
  abbrev status : ℕ → Collector kernel → Status
  status j c = source_id_status kernel num_sources (pos j) c

  status-set_source_id_enabled :
      (i j : ℕ) (enable : Bool) (c : Collector kernel)
      → IsCollector kernel c
      → i < num_sources
      → status j (set_source_id_enabled kernel (pos i) enable c)
        ≡ (if (i == j) && ltb j 31 then (if enable then enabled else disabled) else status j c)
  unfolding source_id_status is_source_id_enabled
  status-set_source_id_enabled i j true c v h =
      ground (arith, (set_source_id_enabled-bits kernel (pos i) true c v).1 j)
  status-set_source_id_enabled i j false c v h =
      ground (arith, (set_source_id_enabled-bits kernel (pos i) false c v).1 j)

  -- The command with a number succeeds exactly if it is the id of a registered source, and is EINVAL
  -- with nothing changed otherwise. Then that source has the status that was asked for, unless its
  -- id is 31 or more, where it stays permanently disabled; and every other status is as before. No
  -- enabled source has the change event's bit.
  cmd_enable_disable-status :
      (enable : Bool) (arg : ℤ) (c : Collector kernel) (j : ℕ)
      → IsCollector kernel c
      → let (c', ret) = cmd_enable_disable kernel num_sources hid_src_shell enable (some arg) c in
        let registered = not (ltb_ℤ arg (pos 0)) && ltb_ℤ arg (pos num_sources) in
        (ret ≡ (if registered then ok 0 else err einval))
        × (status j c' ≡ (
            if registered && is_id arg j && ltb j 31
            then (if enable then enabled else disabled)
            else status j c))
  unfolding cmd_enable_disable
  cmd_enable_disable-status enable (negsuc n) c j v =
      let z : ltb_ℤ (negsuc n) (pos 0) ≡ true = ground arith in rw z (refl, refl)
  cmd_enable_disable-status enable (pos i) c j v =
      let z : ltb_ℤ (pos i) (pos 0) ≡ false = ground arith in
      rw z (elim (dec_lt i num_sources) [
        | yes l ↦
            let r : ltb_ℤ (pos i) (pos num_sources) ≡ true = ground arith in
            rw r (refl, status-set_source_id_enabled i j enable c v l)
        | no nl ↦
            let r : ltb_ℤ (pos i) (pos num_sources) ≡ false = ground arith in rw r (refl, refl)
      ])
