-- ===== src/Avr/Thread/Rounds/Guarded.antt =====
-- When the lines to the AVR are high, and what it is sent.
use mymouse.Base.{
  if◌then◌else◌, not, ◌&&◌, ℕ, ◌≡◌, refl, Bool, true, false, List, [], ◌∷◌, ◌++◌, none, some, AllOf,
  ◌⊎◌, inl, inr, Bool-cases, arith,
}
use mymouse.Avr.Master.{verify_avr_id}
use mymouse.Avr.Thread.{Lines, Command, avr_init_gpios, did_avr_appear, comm_trace}
use mymouse.Avr.Thread.Rounds.{
  Turn, Event, polled, commanded, wait_for_avr, wait_for_release, is_success, ask, command_all,
  thread_turn,
}

-- The two lines are high.
pub record IsUp (l : Lines) : Type 0 where
  pub cs_up : l.cs_high ≡ true
  pub pull_up : l.irq_pull_up ≡ true

pub record IsDown (l : Lines) : Type 0 where
  pub cs_down : l.cs_high ≡ false
  pub no_pull_up : l.irq_pull_up ≡ false

-- A poll finds the AVR if IRQ is high with the pull-up, and low when CS is high; it leaves the lines
-- high then, and low otherwise. A command is sent while they are high, and a command
-- other than the question who it is only to an AVR that has answered it.
abbrev pub IsGuarded : Bool → Event → Type 0
IsGuarded known (polled irq irq_after l) = if irq && not irq_after then IsUp l else IsDown l
IsGuarded known (commanded l c) = IsUp l × ((c.id ≡ 6) ⊎ (known ≡ true))

AllOf-append :
    (P : Event → Type 0) (xs ys : List Event) → AllOf P xs → AllOf P ys → AllOf P (xs ++ ys)
AllOf-append P [] ys h k = k
AllOf-append P (x ∷ xs) ys h k = (h.0, AllOf-append P xs ys h.1 k)

abbrev low : Lines
low = record { cs_high = false; irq_pull_up = false }

lowered : IsDown low
lowered = record { cs_down = refl; no_pull_up = refl }

raised : IsUp (record { cs_high = true; irq_pull_up = true })
raised = record { cs_up = refl; pull_up = refl }

wait_for_avr-IsGuarded :
    (known : Bool) (polls : List (Bool × Bool)) (l : Lines)
    → let (events, l', found) = wait_for_avr polls l in
      AllOf (IsGuarded known) events × (found ≡ true → IsUp l')
unfolding wait_for_avr did_avr_appear
wait_for_avr-IsGuarded known [] l = (tt, λ e. ground (arith, e))
wait_for_avr-IsGuarded known ((true, false) ∷ polls) l = ((raised, tt), λ e. raised)
wait_for_avr-IsGuarded known ((true, true) ∷ polls) l =
    let (later, up) = wait_for_avr-IsGuarded known polls low in ((lowered, later), up)
wait_for_avr-IsGuarded known ((false, irq_after) ∷ polls) l =
    let (later, up) = wait_for_avr-IsGuarded known polls low in ((lowered, later), up)

command_all-IsGuarded :
    (map : List ℕ) (id : ℕ) (l : Lines) (cs : List Command)
    → IsUp l
    → AllOf (IsGuarded true) (command_all map id l cs)
command_all-IsGuarded map id l [] h = tt
command_all-IsGuarded map id l (c ∷ cs) h = ((h, inr refl), command_all-IsGuarded map id l cs h)

not_ended : (l : Lines) → none ≡ some l → IsDown l
not_ended l e = absurd (ground (arith, e))

restored : (l l' : Lines) → some (avr_init_gpios l) ≡ some l' → IsDown l'
restored l l' e = record { cs_down = ground (arith, e); no_pull_up = ground (arith, e) }

-- Whatever the lines read and the AVR answers, a turn of the thread leaves the lines high at a poll
-- that finds the AVR, which has IRQ high before and low after CS goes high, and low at every other
-- poll, and when the turn ends. It sends a command only while the lines are high,
-- as the last poll left them, and a command other than the question who it is only if the answer to
-- that question was right.
pub thread_turn-IsGuarded :
    (map : List ℕ) (id fuel : ℕ) (turn : Turn) (l : Lines)
    → let (events, end) = thread_turn map id fuel turn l in
      let first = turn.first in
      AllOf (IsGuarded (is_success (verify_avr_id first.managed first.done first.response))) events
      × ((l' : Lines) → end ≡ some l' → IsDown l')
unfolding thread_turn
thread_turn-IsGuarded map id fuel turn l =
    let first = turn.first in
    let known = is_success (verify_avr_id first.managed first.done first.response) in
    let (events, l₁, found) = wait_for_avr turn.polls l in
    let (guarded, up) = wait_for_avr-IsGuarded known turn.polls l in
    elim (Bool-cases found) [
      | inr e ↦ rw e (guarded, λ l'. not_ended l')
      | inl e ↦
          let after_asking : (b : Bool) (rest : List Event)
              → AllOf (IsGuarded b) rest
              → AllOf (IsGuarded b) (events ++ ask map id l₁ ∷ rest) =
            λ b rest h.
              AllOf-append (IsGuarded b) events (ask map id l₁ ∷ rest)
                (wait_for_avr-IsGuarded b turn.polls l).0 ((up e, inl refl), h) in
          elim (Bool-cases known) [
            | inl f ↦
                let (cs, ended) = comm_trace map id fuel turn.answers in
                let sent =
                  after_asking true (command_all map id l₁ cs)
                    (command_all-IsGuarded map id l₁ cs (up e)) in
                elim (Bool-cases ended) [
                  | inl g ↦ rw (e, f, g) (sent, λ l'. restored l₁ l')
                  | inr g ↦ rw (e, f, g) (sent, λ l'. not_ended l')
                ]
            | inr f ↦ elim (Bool-cases (wait_for_release turn.releases)) [
              | inl g ↦ rw (e, f, g) (after_asking false [] tt, λ l'. restored l₁ l')
              | inr g ↦ rw (e, f, g) (after_asking false [] tt, λ l'. not_ended l')
            ]
          ]
    ]
