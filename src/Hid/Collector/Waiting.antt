-- ===== src/Hid/Collector/Waiting.antt =====
-- What the collector's thread waits for.
use Prim.Native.Nat.{bit_and, bit_or}
use mymouse.Base.{
  ℕ, suc, ◌^◌, ◌<◌, ◌≡◌, ◌≢◌, refl, ◌∙◌, ap, Bool, ◌==◌, if◌then◌else◌, arith, ltb, ◌&&◌, inl, inr,
  Bool-cases,
}
use mymouse.Base.Int.{ℤ, pos, negsuc}
use mymouse.Base.Bits.{
  test_bit, write_bit-lt, test_bit-write_bit_self, test_bit-write_bit_ne, bit_not, test_bit-lt,
  test_bit-zero, test_bit-bit_or, test_bit-bit_and, test_bit-bit_not, test_bit-pow, bit_and-lt,
  bit_or-lt, bits_ext, bit_and-pow_iff,
}
use native.Mathlib.Decide.{ℕ_discrete}
use mymouse.Hid.Collector.{
  KEvent, Collector, Waited, ready, blocked, wait_for_data_events, sources_changed,
  set_source_id_enabled, valid_id, bit_of,
}

module _ (kernel : KEvent) where
  open kernel use {Event, bits, post, set_masked, wait, bits-post, bits-set_masked, wait_lem}

  abbrev pub pending : Collector kernel → ℕ
  pending c = bits c.event

  -- The words of the state: 32 event bits, and no source has the bit of the change event.
  abbrev pub IsCollector : Collector kernel → Type 0
  IsCollector c = (pending c < 2 ^ 32) × (c.enabled_sources < 2 ^ 31)

  -- The change event is taken off.
  abbrev pub settled : Collector kernel → Collector kernel
  settled c = record c { event = set_masked c.event 0 sources_changed }

  match_bit :
      (c : Collector kernel)
      → test_bit (pending c) 31 ≡ 0
      → (i : ℕ) → i < 32
      → test_bit (bit_and (pending c) (bit_or c.enabled_sources sources_changed)) i
        ≡ test_bit (bit_and (pending c) c.enabled_sources) i
  match_bit c z i h =
      rw
        (
          test_bit-bit_and (pending c) (bit_or c.enabled_sources sources_changed) i,
          test_bit-bit_and (pending c) c.enabled_sources i,
          test_bit-bit_or c.enabled_sources sources_changed i,
          test_bit-pow 31 i,
        )
        (elim (ℕ_discrete i 31) [
          | yes e ↦ rw (e, z) (omega arith)
          | no ne ↦ ground (arith, test_bit-lt c.enabled_sources i)
        ])

  matched :
      (c : Collector kernel)
      → IsCollector c
      → test_bit (pending c) 31 ≡ 0
      → wait c.event (bit_or c.enabled_sources sources_changed)
        ≡ bit_and (pending c) c.enabled_sources
  matched c v z =
      wait_lem c.event _
      ∙ bits_ext 32 _ _ (bit_and-lt 32 _ _ v.0) (bit_and-lt 32 _ _ v.0) (match_bit c z)

  unchanged_event :
      (c : Collector kernel)
      → IsCollector c
      → test_bit (pending c) 31 ≡ 0
      → (m : ℕ) → bit_and (bit_and (pending c) m) sources_changed ≡ 0
  unchanged_event c v z m =
      (bit_and-pow_iff 32 (bit_and (pending c) m) 31 (bit_and-lt 32 (pending c) m v.0)).1
        (test_bit-bit_and (pending c) m 31 ∙ rw z (omega arith))

  -- What the wait gives when no change event is pending.
  abbrev pub outcome : Collector kernel → Waited kernel
  outcome c =
      if bit_and (pending c) c.enabled_sources == 0
      then blocked c
      else ready (bit_and (pending c) c.enabled_sources) c

  wait_settled :
      (fuel : ℕ) (c : Collector kernel)
      → IsCollector c
      → test_bit (pending c) 31 ≡ 0
      → wait_for_data_events kernel (suc fuel) c ≡ outcome c
  unfolding wait_for_data_events
  wait_settled fuel c v z = rw (matched c v z, unchanged_event c v z c.enabled_sources) refl

  -- The change event is seen first, whatever else is pending.
  wait_changed :
      (fuel : ℕ) (c : Collector kernel)
      → IsCollector c
      → test_bit (pending c) 31 ≡ 1
      → wait_for_data_events kernel (suc fuel) c ≡ wait_for_data_events kernel fuel (settled c)
  unfolding wait_for_data_events
  wait_changed fuel c v o =
      let events = bit_and (pending c) (bit_or c.enabled_sources sources_changed) in
      let bit : test_bit events 31 ≡ 1 =
        test_bit-bit_and (pending c) (bit_or c.enabled_sources sources_changed) 31
        ∙ rw (test_bit-bit_or c.enabled_sources sources_changed 31, test_bit-pow 31 31, o)
            (omega (arith, test_bit-lt c.enabled_sources 31)) in
      let seen : bit_and events sources_changed ≢ 0 = λ e.
        omega (arith, bit, (bit_and-pow_iff 32 events 31 (bit_and-lt 32 (pending c) _ v.0)).0 e) in
      let some : events ≢ 0 =
        λ e. omega (arith, bit, ap (λ (m : ℕ). test_bit m 31) e, test_bit-zero 31) in
      rw wait_lem (ground (arith, seen, some))

  -- Taking the change event off leaves the other bits.
  pub pending-settled :
      (c : Collector kernel)
      → IsCollector c
      → (i : ℕ) → i < 32
      → test_bit (pending (settled c)) i ≡ (if i == 31 then 0 else test_bit (pending c) i)
  pending-settled c v i h =
      rw
        (
          bits-set_masked c.event 0 sources_changed,
          test_bit-bit_or (bit_and (pending c) (bit_not 32 sources_changed))
              (bit_and 0 sources_changed) i,
          test_bit-bit_and (pending c) (bit_not 32 sources_changed) i,
          test_bit-bit_not 32 sources_changed i (omega arith) h,
          test_bit-bit_and 0 sources_changed i,
          test_bit-pow 31 i,
          test_bit-zero i,
        )
        (ground (arith, test_bit-lt (pending c) i))

  settled-IsCollector : (c : Collector kernel) → IsCollector c → IsCollector (settled c)
  settled-IsCollector c v = (
    rw (bits-set_masked c.event 0 sources_changed) (
        bit_or-lt 32 _ _ (bit_and-lt 32 (pending c) _ v.0)
          (bit_and-lt 32 0 sources_changed (omega arith))),
    v.1,
  )

  -- The wait ends within two rounds. It hands over the pending events of the enabled sources, all
  -- of them at once, if there is one, and otherwise the thread sleeps; a pending change event is
  -- taken off before, and so is no event. No enabled source has the change event's bit.
  pub wait_for_data_events-outcome :
      (c : Collector kernel)
      → IsCollector c
      → wait_for_data_events kernel 2 c
        ≡ outcome (if test_bit (pending c) 31 == 1 then settled c else c)
  wait_for_data_events-outcome c v = elim (ℕ_discrete (test_bit (pending c) 31) 1) [
    | yes o ↦
        wait_changed 1 c v o
        ∙ wait_settled 0 (settled c) (settled-IsCollector c v)
            (pending-settled c v 31 (omega arith))
        ∙ rw o refl
    | no no' ↦
        let z : test_bit (pending c) 31 ≡ 0 = omega (arith, test_bit-lt (pending c) 31) in
        wait_settled 1 c v z ∙ rw z refl
  ]

  -- Enabling or disabling a source touches its bit only, and posts the change event; an id outside
  -- of 0 to 30 changes nothing. The new state keeps to its words.
  pub set_source_id_enabled-bits :
      (source_id : ℤ) (enabled : Bool) (c : Collector kernel)
      → IsCollector c
      → let c' = set_source_id_enabled kernel source_id enabled c in
        let valid = valid_id source_id in
        IsCollector c'
        × ((i : ℕ)
            → test_bit c'.enabled_sources i ≡ (
                if valid && (i == bit_of source_id)
                then (if enabled then 1 else 0)
                else test_bit c.enabled_sources i))
        × ((i : ℕ)
            → test_bit (pending c') i ≡ (if valid && (i == 31) then 1 else test_bit (pending c) i))
  unfolding set_source_id_enabled
  set_source_id_enabled-bits (negsuc n) enabled c v = (v, λ i. refl, λ i. refl)
  set_source_id_enabled-bits (pos n) enabled c v = elim (Bool-cases (ltb n 31)) [
    | inl h ↦ rw h (
      (
        rw bits-post (bit_or-lt 32 _ _ v.0 (omega arith)),
        write_bit-lt 31 c.enabled_sources n _ v.1 (ground arith),
      ),
      λ i. elim (ℕ_discrete n i) [
        | yes e ↦
            rw (← e, test_bit-write_bit_self c.enabled_sources n (if enabled then 1 else 0))
              (ground arith)
        | no ne ↦
            rw (test_bit-write_bit_ne c.enabled_sources n i (if enabled then 1 else 0) ne)
              (ground arith)
      ],
      λ i.
          rw (bits-post, test_bit-bit_or (pending c) sources_changed i, test_bit-pow 31 i)
            (ground (arith, test_bit-lt (pending c) i)),
    )
    | inr h ↦ rw h (v, λ i. refl, λ i. refl)
  ]
