-- ===== src/Hid/Encoder/Laws.antt =====
-- What the wheel reports add up to.
use mymouse.Base.{ℕ, ◌≤◌, ◌≡◌, List, [], ◌∷◌, arith, if◌then◌else◌, ap}
use mymouse.Base.Int.{ℤ, pos, negsuc, pos_part, neg_part, ◌+ℤ◌, quot, rem, signed, wrap, int_laws}
use mymouse.Hid.Report.{empty}
use mymouse.Hid.Encoder.{Encoder, report_filler, qdec_data_callback}

-- At most `n` in absolute value.
abbrev pub Within : ℕ → ℤ → Type 0
Within n a = (pos_part a ≤ n) × (neg_part a ≤ n)

-- A turn of the wheel, and the collector's run of the filler if it is notified. The number is the
-- signed 8-bit wheel field of the report that goes out, 0 if none does.
unfoldable pub turn : Encoder → ℤ → Encoder × ℤ
turn s value =
    let (s', notified) = qdec_data_callback s value in
    if notified
    then (let (s'', report) = report_filler s' empty in (s'', signed 8 report.wheel_delta))
    else (s', pos 0)

abbrev pub turn_all : Encoder → List ℤ → Encoder × ℤ
turn_all s [] = (s, pos 0)
turn_all s (v ∷ vs) = let (s', w) = turn s v in let (s'', ws) = turn_all s' vs in (s'', w +ℤ ws)

abbrev pub sum : List ℤ → ℤ
sum [] = pos 0
sum (v ∷ vs) = v +ℤ sum vs

abbrev pub All : (ℤ → Type 0) → List ℤ → Type 0
All P [] = Unit {0}
All P (v ∷ vs) = P v × All P vs

halves : (a : ℤ) → quot a 2 +ℤ quot a 2 +ℤ rem a 2 ≡ a
unfolding quot rem ◌+ℤ◌
halves a = ground arith

signed-wrap : (a : ℤ) → Within 127 a → signed 8 (wrap 8 a) ≡ a
signed-wrap (pos n) h = ground arith
signed-wrap (negsuc n) h = ground arith

small_half :
    (s : ℤ) (v : ℤ)
    → Within 1 s
    → Within 200 v
    → Within 127 (quot (s +ℤ v) 2) × Within 1 (rem (s +ℤ v) 2)
unfolding quot rem ◌+ℤ◌
small_half s v h k = ground arith

turn_lem :
    (s : Encoder) (v : ℤ)
    → Within 1 s.acc
    → Within 200 v
    → ((turn s v).1 ≡ quot (s.acc +ℤ v) 2) × ((turn s v).0.acc ≡ rem (s.acc +ℤ v) 2)
unfolding turn qdec_data_callback report_filler
turn_lem s v h k = ground (arith, small_half s.acc v h k, signed-wrap (quot (s.acc +ℤ v) 2))

-- Two turns add up.
regroup :
    (t w a b acc v vs : ℤ)
    → t +ℤ t +ℤ a ≡ acc +ℤ v
    → w +ℤ w +ℤ b ≡ a +ℤ vs
    → (t +ℤ w) +ℤ (t +ℤ w) +ℤ b ≡ acc +ℤ (v +ℤ vs)
regroup t w a b acc v vs e f =
    omega (int_laws, ap pos_part e, ap neg_part e, ap pos_part f, ap neg_part f)

-- If the filler runs after each report of the decoder that asks for it, no movement is lost: twice
-- the reported wheel steps and the half step left over make up all the counts, in counts of at
-- most 200 at a time.
pub turn_all-sum :
    (s : Encoder) (vs : List ℤ)
    → Within 1 s.acc
    → All (Within 200) vs
    → ((turn_all s vs).1 +ℤ (turn_all s vs).1 +ℤ (turn_all s vs).0.acc ≡ s.acc +ℤ sum vs)
      × Within 1 (turn_all s vs).0.acc
turn_all-sum s [] h k = (omega int_laws, h)
turn_all-sum s (v ∷ vs) h k =
    let now = turn_lem s v h k.0 in
    let small = small_half s.acc v h k.0 in
    let later = turn_all-sum (turn s v).0 vs (rw now.1 small.1) k.1 in
    (
      regroup (turn s v).1 (turn_all (turn s v).0 vs).1 (turn s v).0.acc _ s.acc v (sum vs)
          (rw (now.0, now.1) (halves (s.acc +ℤ v))) later.0,
      later.1,
    )

half_of_one : (w : ℤ) → Within 1 w → quot (pos 0 +ℤ w) 2 ≡ pos 0
unfolding quot ◌+ℤ◌
half_of_one w k = ground arith

-- A second report of the decoder before the filler runs overwrites the first: if the counts so far
-- made whole steps and the second report is at most one count, the pending steps are lost.
steps_lost :
    (s : Encoder) (v w : ℤ)
    → rem (s.acc +ℤ v) 2 ≡ pos 0
    → Within 1 w
    → (qdec_data_callback (qdec_data_callback s v).0 w).0.delta ≡ pos 0
unfolding qdec_data_callback
steps_lost s v w h k = rw h (half_of_one w k)
