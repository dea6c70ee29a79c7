-- ===== src/Hid/Buttons/Laws.antt =====
-- The reports and the edge interrupts of the three buttons.
use mymouse.Base.{
  ℕ, ◌+◌, ◌<◌, ◌≡◌, ◌≢◌, ◌↔◌, refl, sym, Bool, true, false, not, List, [], ◌∷◌, some, ◌∙◌,
  get_or-set_self, AllOf, get_elem?-eq-get_or, length, set, ok, err, einval, ◌^◌, arith, ap,
}
use mymouse.ToggleQueue
use mymouse.ToggleQueue.{ToggleQueue}
use mymouse.ToggleQueue.Spec
use mymouse.ToggleQueue.Refine.{
  IsWord, levels, count, length-alternate, get_or_last-levels, put-levels,
}
use mymouse.ToggleQueue.Length.{is_zero-len}
use mymouse.Hid.Report.{Report}
use mymouse.Hid.Buttons.{report_filler, interrupt_cb, any_pending, succeeded}
use mymouse.Hid.Buttons.Index.{
  Distinct, index, HasQueue, left-HasQueue, right-HasQueue, middle-HasQueue, left-ne-right,
  left-ne-middle, right-ne-middle, no_queue, queue, IsQueues, pending, taken, taken-IsQueues,
  take_level-taken, queue-taken_self, queue-taken_ne, queue-IsWord,
}

any_pending-false :
    (queues : List ToggleQueue)
    → AllOf IsWord queues
    → (any_pending queues ≡ false) ↔ AllOf (λ q. pending q ≡ []) queues
any_pending-false [] w = (λ h. _, λ h. refl)
any_pending-false (q ∷ qs) w =
    let here = is_zero-len q w.0 in
    let later = any_pending-false qs w.1 in
    (λ h. (here.0 (ground arith), later.0 (ground arith)), λ h. rw (here.1 h.0, later.1 h.1) refl)

put_succeeds :
    (s : Spec.Levels) (e : Bool)
    → (succeeded (Spec.put s e).1 ≡ true) ↔ ((Spec.put s e).1 ≢ err einval)
unfolding Spec.put
put_succeeds s e = ground arith

module _ (left right middle : ℕ) (distinct : Distinct left right middle) (queues : List ToggleQueue)
    (valid : IsQueues queues) where
  abbrev l : ℕ
  l = index left right middle left

  abbrev r : ℕ
  r = index left right middle right

  abbrev m : ℕ
  m = index left right middle middle

  abbrev after : List ToggleQueue
  after = taken m (taken r (taken l queues))

  -- The report of the button whose queue is `i`: its oldest pending level, or the last one.
  abbrev pub Reports : ℕ → List ToggleQueue → ℕ → Type 0
  Reports i queues' bit =
      let spec =
        Spec.take_or_last (levels (queue i queues)).level (levels (queue i queues)).pending in
      (levels (queue i queues') ≡ spec.0) × (ok bit ≡ spec.1)

  hl : HasQueue left right middle left
  hl = left-HasQueue left right middle

  hr : HasQueue left right middle right
  hr = right-HasQueue left right middle

  hm : HasQueue left right middle middle
  hm = middle-HasQueue left right middle

  lr : l ≢ r
  lr = left-ne-right left right middle distinct.0

  lm : l ≢ m
  lm = left-ne-middle left right middle distinct.1

  rm : r ≢ m
  rm = right-ne-middle left right middle distinct.2

  vl : IsQueues (taken l queues)
  vl = taken-IsQueues l queues hl.1 valid

  vr : IsQueues (taken r (taken l queues))
  vr = taken-IsQueues r (taken l queues) hr.1 vl

  vm : IsQueues after
  vm = taken-IsQueues m (taken r (taken l queues)) hm.1 vr

  filler_runs :
      (report : Report)
      → report_filler left right middle queues report
        ≡ some (
          after,
          record report {
            left = (ToggleQueue.get_or_last (queue l queues)).1;
            right = (ToggleQueue.get_or_last (queue r (taken l queues))).1;
            middle = (ToggleQueue.get_or_last (queue m (taken r (taken l queues)))).1;
          },
          any_pending after,
        )
  unfolding report_filler
  filler_runs report =
      rw
        (
          take_level-taken left right middle left queues hl valid,
          take_level-taken left right middle right (taken l queues) hr vl,
          take_level-taken left right middle middle (taken r (taken l queues)) hm vr,
        )
        refl

  Reports-levels :
      (i : ℕ) (queues' : List ToggleQueue) (q : ToggleQueue)
      → i < 3
      → q ≡ queue i queues
      → queue i queues' ≡ (ToggleQueue.get_or_last q).0
      → Reports i queues' (ToggleQueue.get_or_last q).1
  Reports-levels i queues' q h e f =
      rw (f, e) (get_or_last-levels (queue i queues) (queue-IsWord i queues h valid))

  -- The report carries the oldest pending level of each button, or its last one if none is pending;
  -- each queue gives up that level and no other, the other fields of the report stay, and the
  -- collector is notified again unless all three queues are empty. The pins are distinct.
  pub report_filler-levels :
      (report : Report)
      → (out : List ToggleQueue × Report × Bool) × (report_filler left right middle queues report
          ≡ some out)
        × IsQueues out.0
        × Reports l out.0 out.1.left
        × Reports r out.0 out.1.right
        × Reports m out.0 out.1.middle
        × (out.1 ≡ record report { left = out.1.left; right = out.1.right; middle = out.1.middle })
        × ((out.2 ≡ false) ↔ AllOf (λ q. pending q ≡ []) out.0)
  report_filler-levels report = (
    _,
    filler_runs report,
    vm,
    Reports-levels l after (queue l queues) hl.1 refl (
        queue-taken_ne m l _ (λ e. lm (sym e))
        ∙ queue-taken_ne r l _ (λ e. lr (sym e))
        ∙ queue-taken_self l queues hl.1 valid),
    Reports-levels r after (queue r (taken l queues)) hr.1 (queue-taken_ne l r queues lr)
        (queue-taken_ne m r _ (λ e. rm (sym e)) ∙ queue-taken_self r (taken l queues) hr.1 vl),
    Reports-levels m after (queue m (taken r (taken l queues))) hm.1
        (queue-taken_ne r m _ rm ∙ queue-taken_ne l m queues lm)
        (queue-taken_self m (taken r (taken l queues)) hm.1 vr),
    refl,
    any_pending-false after vm.words,
  )

  -- The edge interrupt of one of the three pins: a level that differs from the newest one of the
  -- pin's queue is appended and the collector is notified; one that repeats it is dropped and the
  -- collector is not. The level is inverted, the counters must have room for one more event, and
  -- the other queues stay.
  pub interrupt_cb-levels :
      (pin : ℕ) (new_level : Bool)
      → HasQueue left right middle pin
      → length (pending (queue (index left right middle pin) queues)) + 1 < 2 ^ 32
      → let i = index left right middle pin in
        let spec = Spec.put (levels (queue i queues)) (not new_level) in
        (out : List ToggleQueue × Bool) × (interrupt_cb left right middle pin new_level queues
          ≡ some out)
        × (levels (queue i out.0) ≡ spec.0)
        × ((out.1 ≡ true) ↔ (spec.1 ≢ err einval))
        × (out.0 ≡ set queues i (queue i out.0))
  unfolding interrupt_cb
  interrupt_cb-levels pin new_level h room =
      let i = index left right middle pin in
      let q = queue i queues in
      let in_range : i < length queues = omega (arith, valid.three, h.1) in
      let w = queue-IsWord i queues h.1 valid in
      let room' : count q + 1 < 2 ^ 32 = rw length-alternate at room in
      let put = put-levels q (not new_level) w room' in
      (
        (
          set queues i (ToggleQueue.put q (not new_level)).0,
          succeeded (ToggleQueue.put q (not new_level)).1,
        ),
        rw (h.0, get_elem?-eq-get_or queues i no_queue in_range) refl,
        rw (get_or-set_self queues i (ToggleQueue.put q (not new_level)).0 no_queue in_range) put.0,
        rw put.1 (put_succeeds (levels q) (not new_level)),
        ap (set queues i) (
            sym (get_or-set_self queues i (ToggleQueue.put q (not new_level)).0 no_queue in_range)),
      )
