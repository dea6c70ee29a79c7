-- ===== src/Shell/Join.antt =====
-- The path that `create_abs_path` makes, and that it stays in its buffer.
use mymouse.Base.{
  ℕ, zero, suc, ◌+◌, ◌-◌, ◌<◌, ◌≡◌, refl, sym, ◌∙◌, ap, true, List, [], ◌∷◌, ◌++◌, Option, some,
  ltb, leb, ◌==◌, if◌then◌else◌, length, take, drop, get_or, AllOf, length-append, arith, inl, inr,
  Bool-cases,
}
use mathlib.Core.List.{append_assoc}
use mymouse.Shell.Paths.{Text, put_at, c_string, and_then, copy_to, append_name, create_abs_path}
use mymouse.Shell.Buffers.{
  AllOf-append, AllOf-take, length-take_le, length-drop, take-append, copy_to-after, length-copied,
  c_string-copied, copied, IsChar,
}

-- The path that a name means, in full.
abbrev pub join : Text → Text → Text
join cwd name =
    if get_or name 0 0 == b'/'
    then name
    else (if get_or cwd 1 0 == 0 then b'/' ∷ name else cwd ++ b'/' ∷ name)

-- A buffer that is as long as before and holds a string.
record Holds (len : ℕ) (text : Text) (result : Option (List ℕ)) : Type 0 where
  pub buffer : List ℕ
  pub is_result : result ≡ some buffer
  pub same_length : length buffer ≡ len
  pub holds : c_string buffer ≡ take (len - 1) text

copy_to-Holds :
    (s : Text) (tail : List ℕ) (name : Text) (len : ℕ)
    → AllOf IsChar s
    → AllOf IsChar name
    → length tail ≡ len
    → 0 < length s + len
    → Holds (length s + len) (s ++ name) (copy_to (length s) name len (s ++ tail))
copy_to-Holds s tail name len hs hn e p = record {
  buffer = copied s name len;
  is_result = copy_to-after s tail name len e p;
  same_length = length-copied s name len p;
  holds = c_string-copied s name len hs hn;
}

-- The bytes behind a slash.
copied_after_slash :
    (name : Text) (len : ℕ) (path : List ℕ)
    → AllOf IsChar name
    → length path ≡ suc len
    → Holds (suc len) (b'/' ∷ name) (and_then (put_at 0 (b'/' ∷ []) path) (copy_to 1 name len))
copied_after_slash name len path hn e =
    let start : put_at 0 (b'/' ∷ []) path ≡ some (b'/' ∷ drop 1 path) = ground (arith, e) in
    let one : 1 + len ≡ suc len = omega arith in
    rw start (
      rw one at (
        copy_to-Holds (b'/' ∷ []) (drop 1 path) name len (refl, tt) hn
          (omega (arith, e, length-drop 1 path)) (omega arith)))

-- The string of a buffer and what stands behind it.
c_string-drop : (b : List ℕ) → b ≡ c_string b ++ drop (length (c_string b)) b
c_string-drop [] = refl
c_string-drop (c ∷ b) = ground (arith, c_string-drop b)

drop-append_suc : (s : List ℕ) (x : ℕ) (t : List ℕ) → drop (length s + 1) (s ++ x ∷ t) ≡ t
drop-append_suc [] x t = refl
drop-append_suc (c ∷ s) x t = ground (arith, drop-append_suc s x t)

put_at-middle :
    (s : List ℕ) (v x : ℕ) (t : List ℕ)
    → put_at (length s) (v ∷ []) (s ++ x ∷ t) ≡ some ((s ++ v ∷ []) ++ t)
put_at-middle s v x t =
    let fits : leb (length s + 1) (length (s ++ x ∷ t)) ≡ true =
      ground (arith, length-append s (x ∷ t)) in
    rw (fits, take-append s (x ∷ t), drop-append_suc s x t) refl

put_at-split :
    (s : List ℕ) (v : ℕ) (r : List ℕ)
    → 0 < length r
    → put_at (length s) (v ∷ []) (s ++ r) ≡ some ((s ++ v ∷ []) ++ drop 1 r)
put_at-split s v [] p = absurd (omega arith)
put_at-split s v (x ∷ t) p = put_at-middle s v x t

take-take_append : (n : ℕ) (s t : List ℕ) → take n (take n s ++ t) ≡ take n (s ++ t)
take-take_append zero s t = refl
take-take_append (suc n) [] t = refl
take-take_append (suc n) (c ∷ s) t = ap (λ l. c ∷ l) (take-take_append n s t)

move_to :
    (n n' : ℕ) (t t' : Text) (r r' : Option (List ℕ))
    → n ≡ n'
    → take (n - 1) t ≡ take (n' - 1) t'
    → r' ≡ r
    → Holds n t r
    → Holds n' t' r'
move_to n n' t t' r r' en et er h = record {
  buffer = h.buffer;
  is_result = er ∙ h.is_result;
  same_length = h.same_length ∙ en;
  holds = h.holds ∙ et;
}

append_name-Holds :
    (name : Text) (len : ℕ) (b : List ℕ)
    → length b ≡ len
    → length (c_string b) < len
    → AllOf IsChar (c_string b)
    → AllOf IsChar name
    → Holds len ((c_string b ++ b'/' ∷ []) ++ name) (append_name name len b)
unfolding append_name
append_name-Holds name len b e p hc hn =
    let c = c_string b in
    let rest = drop (length c) b in
    let room : ltb (length c) len ≡ true = ground (arith, p) in
    let slash : length (c ++ b'/' ∷ []) ≡ length c + 1 = length-append c (b'/' ∷ []) in
    let put : put_at (length c) (b'/' ∷ []) b ≡ some ((c ++ b'/' ∷ []) ++ drop 1 rest) =
      ap (put_at (length c) (b'/' ∷ [])) (c_string-drop b)
      ∙ put_at-split c b'/' rest (omega (arith, e, p, length-drop (length c) b)) in
    let en : length (c ++ b'/' ∷ []) + (len - (length c + 1)) ≡ len = omega (arith, slash, p) in
    let er : append_name name len b
        ≡ and_then (put_at (length c) (b'/' ∷ []) b)
            (copy_to (length c + 1) name (len - (length c + 1))) =
      rw room refl in
    move_to (length (c ++ b'/' ∷ []) + (len - (length c + 1))) len _ _
      (copy_to (length (c ++ b'/' ∷ [])) name (len - (length c + 1))
        ((c ++ b'/' ∷ []) ++ drop 1 rest))
      _ en (ap (λ m. take (m - 1) ((c ++ b'/' ∷ []) ++ name)) en)
      (er
        ∙ ap (λ o. and_then o (copy_to (length c + 1) name (len - (length c + 1)))) put
        ∙ ap (λ m. copy_to m name (len - (length c + 1)) ((c ++ b'/' ∷ []) ++ drop 1 rest))
            (sym slash))
      (copy_to-Holds (c ++ b'/' ∷ []) (drop 1 rest) name (len - (length c + 1))
        (AllOf-append c (b'/' ∷ []) hc (refl, tt)) hn
        (omega (arith, e, length-drop (length c) b, length-drop 1 rest)) (omega (arith, slash)))

append_cwd-Holds :
    (cwd name : Text) (n : ℕ)
    → AllOf IsChar cwd
    → AllOf IsChar name
    → Holds (suc n) (cwd ++ b'/' ∷ name) (append_name name (suc n) (copied [] cwd (suc n)))
append_cwd-Holds cwd name n hc hn =
    let b = copied [] cwd (suc n) in
    let size : length b ≡ suc n = omega (arith, length-copied [] cwd (suc n) (omega arith)) in
    let k : suc n - 1 ≡ n = omega arith in
    let index : 0 + suc n - 1 ≡ n = omega arith in
    let text : c_string b ≡ take n cwd =
      c_string-copied [] cwd (suc n) tt hc ∙ ap (λ m. take m cwd) index in
    move_to (suc n) (suc n) ((c_string b ++ b'/' ∷ []) ++ name) _ (append_name name (suc n) b) _
      refl
      (ap (λ m. take m ((c_string b ++ b'/' ∷ []) ++ name)) k
        ∙ ap (λ x. take n x) (append_assoc (c_string b) (b'/' ∷ []) name)
        ∙ ap (λ x. take n (x ++ b'/' ∷ name)) text
        ∙ take-take_append n cwd (b'/' ∷ name)
        ∙ ap (λ m. take m (cwd ++ b'/' ∷ name)) (sym k))
      refl
      (append_name-Holds name (suc n) b size (omega (arith, ap length text, length-take_le n cwd))
        (rw text (AllOf-take n cwd hc)) hn)

create_abs_path-Holds :
    (cwd name : Text) (n : ℕ) (path : List ℕ)
    → AllOf IsChar cwd
    → AllOf IsChar name
    → 0 < n
    → length path ≡ suc n
    → Holds (suc n) (join cwd name) (create_abs_path cwd name (suc n) path)
unfolding create_abs_path
create_abs_path-Holds cwd name n path hc hn p e =
    let k : suc n - 1 ≡ n = omega arith in
    let z : 0 + suc n ≡ suc n = omega arith in
    let asserted : leb 2 (suc n) ≡ true = ground (arith, p) in
    elim (Bool-cases (get_or name 0 0 == b'/')) [
      | inl abs ↦ rw abs (rw z at (copy_to-Holds [] path name (suc n) tt hn e (omega arith)))
      | inr rel ↦ elim (Bool-cases (get_or cwd 1 0 == 0)) [
        | inl root ↦ rw (rel, root, asserted) (rw k (copied_after_slash name n path hn e))
        | inr deep ↦
            rw (rel, deep)
              (move_to (suc n) (suc n) _ _ (append_name name (suc n) (copied [] cwd (suc n))) _ refl
                refl
                (ap (λ o. and_then o (append_name name (suc n)))
                  (copy_to-after [] path cwd (suc n) e (omega arith)))
                (append_cwd-Holds cwd name n hc hn))
      ]
    ]

-- `create_abs_path` stays in its buffer, which it fills with the full path that the name means, cut
-- off where the buffer ends, and a NUL. The buffer has at least two bytes, and neither the name nor
-- the working directory holds a NUL.
pub create_abs_path-join :
    (cwd name : Text) (n : ℕ) (path : List ℕ)
    → AllOf IsChar cwd
    → AllOf IsChar name
    → 0 < n
    → length path ≡ suc n
    → (b : List ℕ) × (create_abs_path cwd name (suc n) path ≡ some b)
      × (length b ≡ suc n)
      × (c_string b ≡ take n (join cwd name))
create_abs_path-join cwd name n path hc hn p e =
    let h = create_abs_path-Holds cwd name n path hc hn p e in
    let k : suc n - 1 ≡ n = omega arith in (h.buffer, h.is_result, h.same_length, rw k at h.holds)
