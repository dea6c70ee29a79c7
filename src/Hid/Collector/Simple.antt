-- ===== src/Hid/Collector/Simple.antt =====
-- An event object to run the collector with: a word of bits.
use Prim.Native.Nat.{bit_and, bit_or}
use mymouse.Base.{ℕ, refl}
use mymouse.Base.Bits.{bit_not}
use mymouse.Hid.Collector.{KEvent}

abbrev pub word_event : KEvent
word_event = record {
  Event = ℕ;
  bits = λ e. e;
  post = λ e m. bit_or e m;
  set_masked = λ e v m. bit_or (bit_and e (bit_not 32 m)) (bit_and v m);
  wait = λ e m. bit_and e m;
  bits-post = λ e m. refl;
  bits-set_masked = λ e v m. refl;
  wait_lem = λ e m. refl;
}
