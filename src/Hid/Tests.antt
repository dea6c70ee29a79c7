-- ===== src/Hid/Tests.antt =====
-- The theorems on the mouse's input at concrete inputs.
use mymouse.Base.{
  ◌+◌, ◌^◌, ◌<◌, ℕ, ◌≡◌, ◌≢◌, ◌↔◌, List, [], ◌∷◌, Bool, true, false, not, some, err, einval, AllOf,
  set, length, refl, arith,
}
use mymouse.Base.Int.{ℤ, pos, negsuc, ◌+ℤ◌}
use mymouse.Base.Bits.{test_bit}
use mymouse.Bitmask.Order.{scan}
use mymouse.ToggleQueue.{ToggleQueue}
use mymouse.ToggleQueue.Spec
use mymouse.ToggleQueue.Refine.{levels}
use mymouse.Hid.Collector.Simple.{word_event}
use mymouse.Hid.Report.{Report, IsReport, empty, to_bytes}
use mymouse.Hid.Encoder.{initial}
use mymouse.Hid.Encoder.Laws.{turn_all, turn_all-sum}
use mymouse.Hid.Buttons.{queue_for_pin, report_filler, interrupt_cb}
use mymouse.Hid.Buttons.Index.{IsQueues, index, queue, pending}
use mymouse.Hid.Buttons.Laws.{Reports, report_filler-levels, interrupt_cb-levels}
use mymouse.Hid.Collector.{Collector, Thread, wait_for_data_events, ready}
use mymouse.Hid.Collector.Waiting.{wait_for_data_events-outcome}
use mymouse.Hid.Collector.Rounds.{taken}

abbrev moved : Report
moved = record {
  left = 1;
  right = 0;
  middle = 1;
  unused = 0;
  wheel_delta = 255;
  x_delta = 0xABC;
  y_delta = 0x123;
}

moved-IsReport : IsReport moved
moved-IsReport = record {
  left_fits = omega arith;
  right_fits = omega arith;
  middle_fits = omega arith;
  unused_fits = omega arith;
  wheel_fits = omega arith;
  x_fits = omega arith;
  y_fits = omega arith;
}

moved_bytes : to_bytes moved ≡ 0x05 ∷ 0xFF ∷ 0xBC ∷ 0x3A ∷ 0x12 ∷ []
unfolding to_bytes
moved_bytes = refl

-- Three turns: three counts, one back, and four back.
abbrev turns : List ℤ
turns = pos 3 ∷ negsuc 0 ∷ negsuc 3 ∷ []

turn_all-sum_example :
    (turn_all initial turns).1 +ℤ (turn_all initial turns).1 +ℤ (turn_all initial turns).0.acc
    ≡ negsuc 1
unfolding ◌+ℤ◌
turn_all-sum_example = (turn_all-sum initial turns (omega arith) (omega arith)).0

-- The left button was pressed and released, the right one is pressed, the middle one is at rest.
abbrev three_queues : List ToggleQueue
three_queues =
    record { head = 2; tail = 0 }
    ∷ record { head = 5; tail = 4 }
    ∷ record { head = 6; tail = 6 }
    ∷ []

three_queues-IsQueues : IsQueues three_queues
three_queues-IsQueues = record { three = refl; words = omega arith }

report_filler-levels_example :
    (out : List ToggleQueue × Report × Bool) × (report_filler 3 4 5 three_queues moved ≡ some out)
    × IsQueues out.0
    × Reports 3 4 5
        (omega arith)
        three_queues
        three_queues-IsQueues
        (index 3 4 5 3)
        out.0
        out.1.left
    × Reports 3 4 5
        (omega arith)
        three_queues
        three_queues-IsQueues
        (index 3 4 5 4)
        out.0
        out.1.right
    × Reports 3 4 5
        (omega arith)
        three_queues
        three_queues-IsQueues
        (index 3 4 5 5)
        out.0
        out.1.middle
    × (out.1 ≡ record moved { left = out.1.left; right = out.1.right; middle = out.1.middle })
    × ((out.2 ≡ false) ↔ AllOf (λ q. pending q ≡ []) out.0)
report_filler-levels_example =
    report_filler-levels 3 4 5 (omega arith) three_queues three_queues-IsQueues moved

right_HasQueue : (queue_for_pin 3 4 5 4 ≡ some (index 3 4 5 4)) × (index 3 4 5 4 < 3)
unfolding queue_for_pin
right_HasQueue = ground arith

room_on_right : length (pending (queue (index 3 4 5 4) three_queues)) + 1 < 2 ^ 32
unfolding queue_for_pin
room_on_right = omega arith

interrupt_cb-levels_example :
    let i = index 3 4 5 4 in
    let spec = Spec.put (levels (queue i three_queues)) (not true) in
    (out : List ToggleQueue × Bool) × (interrupt_cb 3 4 5 4 true three_queues ≡ some out)
    × (levels (queue i out.0) ≡ spec.0)
    × ((out.1 ≡ true) ↔ (spec.1 ≢ err einval))
    × (out.0 ≡ set three_queues i (queue i out.0))
interrupt_cb-levels_example =
    interrupt_cb-levels 3 4 5 (omega arith) three_queues three_queues-IsQueues 4 true right_HasQueue
      room_on_right

-- An event object that is its word of pending events.
-- The sources 0 and 1 are enabled, 0 and 2 have data, and the enabled sources have changed.
abbrev collector : Collector word_event
collector = record { event = 0x80000005; enabled_sources = 3 }

wait_for_data_events-outcome_example :
    wait_for_data_events word_event 2 collector ≡ ready 1 (record collector { event = 5 })
unfolding test_bit
wait_for_data_events-outcome_example =
    wait_for_data_events-outcome word_event collector (omega arith)

-- A thread with no further state, and sources that press the left button and count on the wheel.
abbrev thread : Thread word_event ℕ
thread = record { collector = record { event = 7; enabled_sources = 7 }; report = empty; rest = 0 }

abbrev count_up : ℕ → Thread word_event ℕ → Thread word_event ℕ
count_up id t = record t { report = record (t.report) { left = 1; wheel_delta = id } }

abbrev send : Thread word_event ℕ → Thread word_event ℕ
send t = record t { rest = t.rest + 1 }

sent_report-IsReport : IsReport (send (scan count_up 32 0 5 (taken word_event 5 thread))).report
unfolding scan test_bit
sent_report-IsReport = record {
  left_fits = omega arith;
  right_fits = omega arith;
  middle_fits = omega arith;
  unused_fits = omega arith;
  wheel_fits = omega arith;
  x_fits = omega arith;
  y_fits = omega arith;
}
