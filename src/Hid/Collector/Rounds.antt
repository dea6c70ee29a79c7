-- ===== src/Hid/Collector/Rounds.antt =====
-- One round of the collector's thread: which sources fill the report, and what is left pending.
use Prim.Native.Nat.{bit_and}
use mymouse.Base.{ℕ, ◌^◌, ◌<◌, ◌≡◌, ap, ◌==◌, if◌then◌else◌, arith}
use mymouse.Base.Bits.{
  test_bit, bit_not, test_bit-lt, test_bit-zero, test_bit-bit_or, test_bit-bit_and,
  test_bit-bit_not,
}
use mymouse.Bitmask.{Ffs}
use mymouse.Bitmask.Order.{scan, for_each_bit-scan}
use mymouse.Hid.Report.{Report, IsReport, clear_lem}
use mymouse.Hid.Collector.{KEvent, Thread, serve}

module _ (kernel : KEvent) {S : Type 0} where
  open kernel use {bits, set_masked, bits-set_masked}

  -- The received events are taken off.
  abbrev pub taken : ℕ → Thread kernel S → Thread kernel S
  taken events t = record t {
    collector = record (t.collector) { event = set_masked t.collector.event 0 events };
  }

  -- Exactly the events handed over are taken off: the others stay pending.
  pub pending-taken :
      (events : ℕ) (t : Thread kernel S)
      → events < 2 ^ 32
      → (i : ℕ) → i < 32
      → test_bit (bits (taken events t).collector.event) i
        ≡ (if test_bit events i == 1 then 0 else test_bit (bits t.collector.event) i)
  pending-taken events t h i k =
      rw
        (
          bits-set_masked t.collector.event 0 events,
          test_bit-bit_or (bit_and (bits t.collector.event) (bit_not 32 events)) (bit_and 0 events)
              i,
          test_bit-bit_and (bits t.collector.event) (bit_not 32 events) i,
          test_bit-bit_not 32 events i h k,
          test_bit-bit_and 0 events i,
          test_bit-zero i,
        )
        (ground (arith, test_bit-lt (bits t.collector.event) i, test_bit-lt events i))

  -- A round fills the report from the sources whose event was received, each once and the lowest
  -- id first, sends it, and clears the movement of the report that the sink left, with the buttons
  -- kept, where that report's fields fit their widths.
  pub serve-scan :
      (ffs : Ffs) (fill : ℕ → Thread kernel S → Thread kernel S)
      (sink : Thread kernel S → Thread kernel S) (events : ℕ) (t : Thread kernel S)
      → events < 2 ^ 32
      → let sent = sink (scan fill 32 0 events (taken events t)) in
        IsReport sent.report
        → serve kernel ffs fill sink events t ≡ record sent {
          report = record (sent.report) { wheel_delta = 0; x_delta = 0; y_delta = 0 };
        }
  unfolding serve
  serve-scan ffs fill sink events t h r =
      rw (for_each_bit-scan ffs fill events h (taken events t)) (
        ap (λ (p : Report). record (sink (scan fill 32 0 events (taken events t))) { report = p })
          (clear_lem _ r))
