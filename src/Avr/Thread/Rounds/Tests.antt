-- ===== src/Avr/Thread/Rounds/Tests.antt =====
-- An AVR that is found at the second poll, answers with its id, and then with another one.
use mymouse.Base.{ℕ, ◌≡◌, refl, true, false, List, [], ◌∷◌, none, some, AllOf}
use mymouse.Avr.Crc.{update_crc, shift_all, shift_out}
use mymouse.Avr.Master.{avr_spi_done_callback, check_crc, avr_transceive, verify_avr_id}
use mymouse.Avr.Check.{both_done}
use mymouse.Avr.Thread.{Lines, Answer, did_avr_appear, send_reports, avr_comm_loop}
use mymouse.Avr.Thread.Rounds.{Turn, wait_for_avr, thread_turn}
use mymouse.Avr.Thread.Rounds.Guarded.{IsGuarded, IsDown, thread_turn-IsGuarded}

abbrev answer : List ℕ → Answer
answer response = record { managed = none; done = both_done; response = response }

abbrev turn : Turn
turn = record {
  polls = (false, false) ∷ (true, false) ∷ [];
  first = answer (0x1E ∷ 0x93 ∷ 0x89 ∷ 0x38 ∷ []);
  releases = [];
  answers = λ n. answer (0 ∷ 0 ∷ 0 ∷ 0 ∷ []);
}

abbrev low : Lines
low = record { cs_high = false; irq_pull_up = false }

-- The turn ends with the lines low.
turn_ends : (thread_turn (0xA1 ∷ 0x01 ∷ []) 1 3 turn low).1 ≡ some low
unfolding thread_turn wait_for_avr did_avr_appear send_reports avr_comm_loop verify_avr_id
    avr_transceive avr_spi_done_callback check_crc update_crc shift_all shift_out
turn_ends = refl

thread_turn-IsGuarded_example :
    let (events, end) = thread_turn (0xA1 ∷ 0x01 ∷ []) 1 3 turn low in
    AllOf (IsGuarded true) events × ((l' : Lines) → end ≡ some l' → IsDown l')
unfolding verify_avr_id avr_transceive avr_spi_done_callback check_crc update_crc shift_all
    shift_out
thread_turn-IsGuarded_example = thread_turn-IsGuarded (0xA1 ∷ 0x01 ∷ []) 1 3 turn low
