-- ===== src/Shell/Buffers.antt =====
-- What strncpy and a NUL leave in a buffer, and the string that it holds then.
use mymouse.Base.{
  ℕ, zero, suc, ◌+◌, ◌-◌, ◌≤◌, ◌<◌, ◌≡◌, refl, sym, ◌∙◌, ap, true, false, List, [], ◌∷◌, ◌++◌, some,
  leb, ◌==◌, length, take, drop, AllOf, length-append, arith,
}
use mathlib.Core.List.{append-nil}
use mymouse.Shell.Paths.{Text, pad, put_at, c_string, and_then, copy_to}

-- The characters of a string are not NUL.
abbrev pub IsChar : ℕ → Type 0
IsChar c = (c == 0) ≡ false

length-pad : (n : ℕ) (s : Text) → length (pad n s) ≡ n
length-pad zero s = refl
length-pad (suc n) [] = ground (arith, length-pad n [])
length-pad (suc n) (c ∷ s) = ground (arith, length-pad n s)

length-take : (n : ℕ) (s : List ℕ) → n ≤ length s → length (take n s) ≡ n
length-take zero s p = refl
length-take (suc n) [] p = absurd (omega arith)
length-take (suc n) (c ∷ s) p = ground (arith, length-take n s)

pub length-drop : (n : ℕ) (s : List ℕ) → length (drop n s) ≡ length s - n
length-drop zero s = ground arith
length-drop (suc n) [] = ground arith
length-drop (suc n) (c ∷ s) = ground (arith, length-drop n s)

drop_all : (s : List ℕ) (n : ℕ) → length s ≤ n → drop n s ≡ []
drop_all [] zero p = refl
drop_all [] (suc n) p = refl
drop_all (c ∷ s) zero p = absurd (omega arith)
drop_all (c ∷ s) (suc n) p = drop_all s n (omega arith)

take-append_le : (m : ℕ) (s t : List ℕ) → m ≤ length s → take m (s ++ t) ≡ take m s
take-append_le zero s t p = refl
take-append_le (suc m) [] t p = absurd (omega arith)
take-append_le (suc m) (c ∷ s) t p = ap (λ l. c ∷ l) (take-append_le m s t (omega arith))

-- A string, padded and cut off by a NUL.
c_string-take_pad :
    (m n : ℕ) (t : Text) (rest : List ℕ)
    → AllOf IsChar t
    → m ≤ n
    → c_string (take m (pad n t) ++ 0 ∷ rest) ≡ take m t
c_string-take_pad zero n t rest h p = ground arith
c_string-take_pad (suc m) zero t rest h p = absurd (omega arith)
c_string-take_pad (suc m) (suc n) [] rest h p = ground arith
c_string-take_pad (suc m) (suc n) (c ∷ t) rest (hc, h) p =
    ground (arith, hc, c_string-take_pad m n t rest h)

c_string-take_append :
    (m n : ℕ) (s t : Text) (rest : List ℕ)
    → AllOf IsChar s
    → AllOf IsChar t
    → m ≤ length s + n
    → c_string (take m (s ++ pad n t) ++ 0 ∷ rest) ≡ take m (s ++ t)
c_string-take_append m n [] t rest hs ht p = c_string-take_pad m n t rest ht (omega arith)
c_string-take_append zero n (c ∷ s) t rest hs ht p = ground arith
c_string-take_append (suc m) n (c ∷ s) t rest (hc, hs) ht p =
    ground (arith, hc, c_string-take_append m n s t rest hs ht)

pub take-append : (s t : List ℕ) → take (length s) (s ++ t) ≡ s
take-append [] t = refl
take-append (c ∷ s) t = ap (λ l. c ∷ l) (take-append s t)

put_at-tail :
    (s tail bytes : List ℕ)
    → length bytes ≡ length tail
    → put_at (length s) bytes (s ++ tail) ≡ some (s ++ bytes)
put_at-tail s tail bytes e =
    let fits : leb (length s + length bytes) (length (s ++ tail)) ≡ true =
      ground (arith, length-append s tail, e) in
    let rest : drop (length s + length bytes) (s ++ tail) ≡ [] =
      drop_all (s ++ tail) (length s + length bytes) (omega (arith, length-append s tail, e)) in
    rw (fits, take-append s tail, rest) (ap some (append-nil (s ++ bytes)))

put_at-last :
    (n : ℕ) (b : List ℕ) → length b ≡ suc n → put_at n (0 ∷ []) b ≡ some (take n b ++ 0 ∷ [])
put_at-last n b e =
    let fits : leb (n + 1) (length b) ≡ true = ground (arith, e) in
    let rest : drop (n + 1) b ≡ [] = drop_all b (n + 1) (omega (arith, e)) in
    rw (fits, rest) (ap some (append-nil (take n b ++ 0 ∷ [])))

-- The buffer after `copy_to`, behind a string `s`.
abbrev pub copied : Text → Text → ℕ → List ℕ
copied s name len = take (length s + len - 1) (s ++ pad len name) ++ 0 ∷ []

pub copy_to-after :
    (s : Text) (tail : List ℕ) (name : Text) (len : ℕ)
    → length tail ≡ len
    → 0 < length s + len
    → copy_to (length s) name len (s ++ tail) ≡ some (copied s name len)
unfolding copy_to
copy_to-after s tail name len e p =
    let made : length (s ++ pad len name) ≡ suc (length s + len - 1) =
      omega (arith, length-append s (pad len name), length-pad len name) in
    ap (λ b. and_then b (put_at (length s + len - 1) (0 ∷ [])))
      (put_at-tail s tail (pad len name) (length-pad len name ∙ sym e))
    ∙ put_at-last (length s + len - 1) (s ++ pad len name) made

pub length-copied :
    (s name : Text) (len : ℕ) → 0 < length s + len → length (copied s name len) ≡ length s + len
length-copied s name len p = omega (
  arith,
  length-append (take (length s + len - 1) (s ++ pad len name)) (0 ∷ []),
  length-take (length s + len - 1) (s ++ pad len name),
  length-append s (pad len name),
  length-pad len name,
)

pub c_string-copied :
    (s name : Text) (len : ℕ)
    → AllOf IsChar s
    → AllOf IsChar name
    → c_string (copied s name len) ≡ take (length s + len - 1) (s ++ name)
c_string-copied s name len hs hn =
    c_string-take_append (length s + len - 1) len s name [] hs hn (omega arith)

pub AllOf-append : (s t : Text) → AllOf IsChar s → AllOf IsChar t → AllOf IsChar (s ++ t)
AllOf-append [] t hs ht = ht
AllOf-append (c ∷ s) t (hc, hs) ht = (hc, AllOf-append s t hs ht)

pub AllOf-take : (n : ℕ) (s : Text) → AllOf IsChar s → AllOf IsChar (take n s)
AllOf-take zero s h = tt
AllOf-take (suc n) [] h = tt
AllOf-take (suc n) (c ∷ s) (hc, h) = (hc, AllOf-take n s h)

pub length-take_le : (n : ℕ) (s : List ℕ) → (length (take n s) ≤ n) × (length (take n s) ≤ length s)
length-take_le zero s = omega arith
length-take_le (suc n) [] = omega arith
length-take_le (suc n) (c ∷ s) = omega (arith, length-take_le n s)
