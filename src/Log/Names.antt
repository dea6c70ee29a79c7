-- ===== src/Log/Names.antt =====
-- The names of the log files: the format `%04d`, and what `get_log_file_id` reads back.
use mymouse.Base.{
  ℕ, ◌+◌, ◌-◌, ◌*◌, ◌/◌, ◌%◌, ◌≤◌, ◌≡◌, refl, ap, Bool, true, false, not, ◌&&◌, ◌||◌, List, [], ◌∷◌,
  ◌++◌, leb, ◌==◌, if◌then◌else◌, length, length-append, take, drop, arith,
}
use mymouse.Base.Int.{ℤ, pos, negsuc, neg}

-- Character codes.
abbrev pub Text : Type 0
Text = List ℕ

abbrev pub same_text : Text → Text → Bool
same_text [] [] = true
same_text [] (d ∷ t) = false
same_text (c ∷ s) [] = false
same_text (c ∷ s) (d ∷ t) = (c == d) && same_text s t

abbrev pub max_file_numeral : ℕ
max_file_numeral = 9999

abbrev pub file_numeral_len : ℕ
file_numeral_len = 4

-- `%04d` of a number of at most four digits.
unfoldable pub numeral : ℕ → Text
numeral n =
    (b'0' + n / 1000 % 10) ∷ (b'0' + n / 100 % 10) ∷ (b'0' + n / 10 % 10) ∷ (b'0' + n % 10) ∷ []

-- `atoi`: blanks, a sign, and digits up to the first other character.
abbrev pub is_digit : ℕ → Bool
is_digit c = leb b'0' c && leb c b'9'

abbrev pub is_space : ℕ → Bool
is_space c = (c == 32) || (leb 9 c && leb c 13)

unfoldable pub digits_value : ℕ → Text → ℕ
digits_value n [] = n
digits_value n (c ∷ s) =
    let rest = digits_value (n * 10 + (c - b'0')) s in if is_digit c then rest else n

unfoldable pub signed_value : Text → ℤ
unfolding digits_value
signed_value [] = pos 0
signed_value (c ∷ s) =
    if c == b'-'
    then neg (pos (digits_value 0 s))
    else pos (digits_value 0 (if c == b'+' then s else c ∷ s))

unfoldable pub atoi : Text → ℤ
unfolding signed_value
atoi [] = pos 0
atoi (c ∷ s) = let rest = atoi s in if is_space c then rest else signed_value (c ∷ s)

pub data EntryType : Type 0 where
  file_entry dir_entry : EntryType

pub record Dirent : Type 0 where
  pub entry_type : EntryType
  pub name : Text

abbrev pub is_file : EntryType → Bool
is_file file_entry = true
is_file dir_entry = false

-- A number that is a file numeral.
abbrev pub in_range : ℤ → ℤ
in_range (pos n) = if leb n max_file_numeral then pos n else negsuc 0
in_range (negsuc n) = negsuc 0

unfoldable pub get_log_file_id : Text → Dirent → ℤ
get_log_file_id prefix ent =
    if not (is_file ent.entry_type)
    then negsuc 0
    else (if not (length ent.name == length prefix + file_numeral_len)
        then negsuc 0
        else (if not (same_text (take (length prefix) ent.name) prefix)
            then negsuc 0
            else in_range (atoi (drop (length prefix) ent.name))))

pub same_text_refl : (s : Text) → same_text s s ≡ true
same_text_refl [] = refl
same_text_refl (c ∷ s) = ground (arith, same_text_refl s)

take-append : (s t : Text) → take (length s) (s ++ t) ≡ s
take-append [] t = refl
take-append (c ∷ s) t = ap (λ l. c ∷ l) (take-append s t)

drop-append : (s t : Text) → drop (length s) (s ++ t) ≡ t
drop-append [] t = refl
drop-append (c ∷ s) t = drop-append s t

atoi-numeral : (n : ℕ) → n ≤ 9999 → atoi (numeral n) ≡ pos n
unfolding atoi numeral
atoi-numeral n h = ground arith

-- The id of a log file is the number that its name was made from, for numbers up to 9999.
get_log_file_id-numeral :
    (prefix : Text) (n : ℕ)
    → n ≤ max_file_numeral
    → get_log_file_id prefix (record { entry_type = file_entry; name = prefix ++ numeral n })
      ≡ pos n
unfolding get_log_file_id numeral
get_log_file_id-numeral prefix n h =
    let len : (length (prefix ++ numeral n) == length prefix + file_numeral_len) ≡ true =
      ground (arith, length-append prefix (numeral n)) in
    rw
      (
        len,
        take-append prefix (numeral n),
        same_text_refl prefix,
        drop-append prefix (numeral n),
        atoi-numeral n h,
      )
      (ground arith)
