-- ===== src/Hid/Buttons/Index.antt =====
-- Which queue a pin has, and the queues after one gave up a level.
use mymouse.Base.{
  ℕ, ◌<◌, ◌≡◌, ◌≢◌, refl, Bool, List, none, some, ◌∙◌, get_or, length-set, get_or-set_self,
  get_or-set_ne, AllOf, AllOf-set, AllOf-get_or, get_elem?-eq-get_or, length, set, arith,
}
use mymouse.ToggleQueue
use mymouse.ToggleQueue.{ToggleQueue}
use mymouse.ToggleQueue.Refine.{IsWord, levels, get_or_last-IsWord}
use mymouse.Hid.Buttons.{queue_for_pin, take_level}

abbrev pub Distinct : ℕ → ℕ → ℕ → Type 0
Distinct a b c = (a ≢ b) × (a ≢ c) × (b ≢ c)

module _ (left right middle : ℕ) where
  -- The index of a pin's queue, 3 if it has none.
  abbrev pub index : ℕ → ℕ
  index pin = elim (queue_for_pin left right middle pin) [ none ↦ 3 | some i ↦ i ]

  abbrev pub HasQueue : ℕ → Type 0
  HasQueue pin = (queue_for_pin left right middle pin ≡ some (index pin)) × (index pin < 3)

  pub left-HasQueue : HasQueue left
  unfolding queue_for_pin
  left-HasQueue = ground arith

  pub right-HasQueue : HasQueue right
  unfolding queue_for_pin
  right-HasQueue = ground arith

  pub middle-HasQueue : HasQueue middle
  unfolding queue_for_pin
  middle-HasQueue = ground arith

  pub left-ne-right : left ≢ right → index left ≢ index right
  unfolding queue_for_pin
  left-ne-right h = ground arith

  pub left-ne-middle : left ≢ middle → index left ≢ index middle
  unfolding queue_for_pin
  left-ne-middle h = ground arith

  pub right-ne-middle : right ≢ middle → index right ≢ index middle
  unfolding queue_for_pin
  right-ne-middle h = ground arith

abbrev pub no_queue : ToggleQueue
no_queue = record { head = 0; tail = 0 }

abbrev pub queue : ℕ → List ToggleQueue → ToggleQueue
queue i queues = get_or queues i no_queue

-- The queues are those of the three buttons, in some order, and their counters are words.
pub record IsQueues (queues : List ToggleQueue) : Type 0 where
  pub three : length queues ≡ 3
  pub words : AllOf IsWord queues

abbrev pub pending : ToggleQueue → List Bool
pending q = (levels q).pending

-- Queue `i` after its oldest level was taken, and that level.
abbrev pub taken : ℕ → List ToggleQueue → List ToggleQueue
taken i queues = set queues i (ToggleQueue.get_or_last (queue i queues)).0

pub taken-IsQueues :
    (i : ℕ) (queues : List ToggleQueue) → i < 3 → IsQueues queues → IsQueues (taken i queues)
taken-IsQueues i queues h v = record {
  three = length-set queues i _ ∙ v.three;
  words = AllOf-set IsWord queues i _ v.words (
      get_or_last-IsWord _
        (AllOf-get_or IsWord queues i no_queue v.words (omega (arith, v.three))));
}

module _ (left right middle : ℕ) where
  pub take_level-taken :
      (pin : ℕ) (queues : List ToggleQueue)
      → HasQueue left right middle pin
      → IsQueues queues
      → take_level left right middle pin queues
        ≡ some (
          taken (index left right middle pin) queues,
          (ToggleQueue.get_or_last (queue (index left right middle pin) queues)).1,
        )
  unfolding take_level
  take_level-taken pin queues h v =
      rw
        (
          h.0,
          get_elem?-eq-get_or queues (index left right middle pin) no_queue
              (omega (arith, v.three)),
        )
        refl

pub queue-taken_self :
    (i : ℕ) (queues : List ToggleQueue)
    → i < 3
    → IsQueues queues
    → queue i (taken i queues) ≡ (ToggleQueue.get_or_last (queue i queues)).0
queue-taken_self i queues h v = get_or-set_self queues i _ no_queue (omega (arith, v.three))

pub queue-taken_ne :
    (i j : ℕ) (queues : List ToggleQueue) → i ≢ j → queue j (taken i queues) ≡ queue j queues
queue-taken_ne i j queues h = get_or-set_ne queues i j _ no_queue h

pub queue-IsWord :
    (i : ℕ) (queues : List ToggleQueue) → i < 3 → IsQueues queues → IsWord (queue i queues)
queue-IsWord i queues h v = AllOf-get_or IsWord queues i no_queue v.words (omega (arith, v.three))
