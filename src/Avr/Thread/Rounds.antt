-- ===== src/Avr/Thread/Rounds.antt =====
-- The outer loop of `avr_communication_thread` in app-nrf/src/services/avr_comm.c: the wait for the
-- AVR, the question who it is, and the commands. What the lines read at each poll, and what the AVR
-- answers, are arguments.
pub mod Guarded
mod Tests
use mymouse.Base.{
  ℕ, Bool, true, false, not, ◌||◌, List, [], ◌∷◌, ◌++◌, Option, none, some, if◌then◌else◌, Ret, ok,
  err, ◌==◌,
}
use mymouse.Avr.Master.{verify_avr_id}
use mymouse.Avr.Thread.{Lines, Command, Answer, avr_init_gpios, did_avr_appear, ask_id, comm_trace}

-- What one turn of the loop sees: the two levels of IRQ at each poll, the answer to the first
-- question, the levels of IRQ while an unknown device holds it low, and the answers later on.
pub record Turn : Type 0 where
  pub polls : List (Bool × Bool)
  pub first : Answer
  pub releases : List Bool
  pub answers : ℕ → Answer

-- What the thread does: it polls, reads the two levels of IRQ and leaves the lines, or it sends a
-- command with the lines.
pub data Event : Type 0 where
  polled : Bool → Bool → Lines → Event
  commanded : Lines → Command → Event

-- `while (!did_avr_appear())`, and whether it has ended.
unfoldable pub wait_for_avr : List (Bool × Bool) → Lines → List Event × Lines × Bool
wait_for_avr [] l = ([], l, false)
wait_for_avr ((irq, irq_after) ∷ polls) l =
    let (appeared, l') = did_avr_appear irq irq_after l in
    let (events, l'', found) = wait_for_avr polls l' in
    if appeared
    then (polled irq irq_after l' ∷ [], l', true)
    else (polled irq irq_after l' ∷ events, l'', found)

-- Whether the loop has ended that waits until IRQ is high.
abbrev pub wait_for_release : List Bool → Bool
wait_for_release [] = false
wait_for_release (irq ∷ releases) = irq || wait_for_release releases

abbrev pub is_success : Ret → Bool
is_success (ok n) = n == 0
is_success (err e) = false

module _ (hid_report_map : List ℕ) (hid_report_id : ℕ) where
  abbrev pub ask : Lines → Event
  ask l = commanded l (ask_id hid_report_map hid_report_id)

  abbrev pub command_all : Lines → List Command → List Event
  command_all l [] = []
  command_all l (c ∷ cs) = commanded l c ∷ command_all l cs

  -- A turn, on fuel for the loop of commands: the events, and the lines if it has ended.
  unfoldable pub thread_turn : ℕ → Turn → Lines → List Event × Option Lines
  unfolding wait_for_avr
  thread_turn fuel turn l =
      let (events, l', found) = wait_for_avr turn.polls l in
      let known =
        is_success (verify_avr_id turn.first.managed turn.first.done turn.first.response) in
      let (commands, ended) = comm_trace hid_report_map hid_report_id fuel turn.answers in
      if not found
      then (events, none)
      else (if known
          then (
            events ++ ask l' ∷ command_all l' commands,
            if ended then some (avr_init_gpios l') else none,
          )
          else (
            events ++ ask l' ∷ [],
            if wait_for_release turn.releases then some (avr_init_gpios l') else none,
          ))
