-- ===== src/Hid/Shell/Tests.antt =====
-- Two moves by the shell, and a source that is disabled.
use mymouse.Base.{◌≡◌, [], ◌∷◌, arith}
use mymouse.Base.Int.{pos, negsuc, ◌+ℤ◌}
use mymouse.Base.Bits.{test_bit}
use mymouse.Hid.Report.{empty}
use mymouse.Hid.Collector.{Collector}
use mymouse.Hid.Collector.Simple.{word_event}
use mymouse.Hid.Shell.{report_filler}
use mymouse.Hid.Shell.Moves.{move_all, report_filler-moves}

abbrev collector : Collector word_event
collector = record { event = 0; enabled_sources = 7 }

-- 3 to the right and 2 up, then 5 to the left.
report_filler-moves_example :
    let (p, c') =
      move_all word_event 4
        (pos 3)
        ((pos 3, negsuc 1) ∷ (negsuc 4, pos 0) ∷ [])
        (record { x_delta = 0; y_delta = 0 }, collector) in
    (test_bit c'.event 3 ≡ 1)
    × (report_filler p empty
        ≡ (record { x_delta = 0; y_delta = 0 }, record empty { x_delta = 0xFFE; y_delta = 0xFFE }))
unfolding ◌+ℤ◌
report_filler-moves_example =
    report_filler-moves word_event 4 3 (omega arith) (pos 3) (negsuc 1) ((negsuc 4, pos 0) ∷ [])
      collector empty
