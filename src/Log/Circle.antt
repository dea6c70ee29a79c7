-- ===== src/Log/Circle.antt =====
-- The numerals in a circle, where 0 follows 9999, and the first one with a property.
use mymouse.Base.{
  ℕ, zero, suc, ◌+◌, ◌-◌, ◌%◌, ◌≤◌, ◌<◌, ◌≡◌, Bool, true, false, Bool-cases, inl, inr, arith,
}
use mymouse.Log.Files.{succ_numeral}

-- The numeral `d` places after `n`, in the circle from 0 to 9999.
unfoldable pub after : ℕ → ℕ → ℕ
after n d = (n + d) % 10000

pub after_zero : (n : ℕ) → n ≤ 9999 → after n 0 ≡ n
unfolding after
after_zero n p = omega arith

pub succ_numeral-after : (n : ℕ) → n ≤ 9999 → succ_numeral n ≡ after n 1
unfolding after
succ_numeral-after n p = ground arith

pub after-succ_numeral : (n d : ℕ) → n ≤ 9999 → after (succ_numeral n) d ≡ after n (suc d)
unfolding after
after-succ_numeral n d p = ground arith

-- How far `k` is from `n`.
pub distance : ℕ → ℕ → ℕ
distance n k = (k + 10000 - n) % 10000

pub after-distance : (n k : ℕ) → n ≤ 9999 → k ≤ 9999 → after n (distance n k) ≡ k
unfolding after distance
after-distance n k p q = omega arith

pub distance_le : (n k : ℕ) → distance n k ≤ 9999
unfolding distance
distance_le n k = omega arith

pub after_le : (n d : ℕ) → after n d ≤ 9999
unfolding after
after_le n d = omega arith

pub succ_numeral_le : (n : ℕ) → succ_numeral n ≤ 9999
succ_numeral_le n = ground arith

-- The place of the first file.
pub record FirstAt (f : ℕ → Bool) (n : ℕ) : Type 0 where
  pub place : ℕ
  pub within : place ≤ n
  pub present : f place ≡ true
  pub before : (i : ℕ) → i < place → f i ≡ false

before_suc :
    (f : ℕ → Bool) (n : ℕ)
    → f 0 ≡ false
    → ((i : ℕ) → i < n → f (suc i) ≡ false)
    → (i : ℕ) → i < suc n
    → f i ≡ false
before_suc f n e h zero p = e
before_suc f n e h (suc i) p = h i (omega arith)

pub first : (f : ℕ → Bool) (n : ℕ) → f n ≡ true → FirstAt f n
first f zero h = record {
  place = 0;
  within = omega arith;
  present = h;
  before = λ i p. absurd (omega arith);
}
first f (suc n) h = elim (Bool-cases (f 0)) [
  | inl e ↦ record {
    place = 0;
    within = omega arith;
    present = e;
    before = λ i p. absurd (omega arith);
  }
  | inr e ↦
      let rest = first (λ i. f (suc i)) n h in
      record {
        place = suc rest.place;
        within = omega (arith, rest.within);
        present = rest.present;
        before = before_suc f rest.place e rest.before;
      }
]
