-- ===== src/Config/Parse/Defs.antt =====
-- strconv.Atoi and strconv.ParseBool, on the code points of the text.
use reservation_worker.Base.{
  ℕ, zero, suc, ◌+◌, ◌-◌, ◌*◌, String, ◌==◌, Bool, true, false, ◌&&◌, ◌||◌, Option, none, some,
  List, [], ◌∷◌, ℤ, pos, negsuc, half64, codes, is_digit, ltb, leb, if◌then◌else◌,
}

-- The number that digits spell behind `n`; `none` at any other character.
unfoldable pub scan_digits : List ℕ → ℕ → Option ℕ
unfolding is_digit
scan_digits [] n = some n
scan_digits (c ∷ s) n = if is_digit c then scan_digits s (n * 10 + (c - b'0')) else none

-- At least one digit.
unfoldable pub parse_digits : List ℕ → Option ℕ
unfolding scan_digits
parse_digits [] = none
parse_digits (c ∷ s) = scan_digits (c ∷ s) 0

-- A number of 64 bits with this sign; one out of range is an error.
unfoldable pub in_range : Bool → Option ℕ → Option ℤ
in_range minus none = none
in_range false (some n) = if ltb n half64 then some (pos n) else none
in_range true (some zero) = some (pos 0)
in_range true (some (suc n)) = if ltb n half64 then some (negsuc n) else none

unfoldable pub atoi_codes : List ℕ → Option ℤ
unfolding in_range parse_digits
atoi_codes [] = none
atoi_codes (c ∷ s) =
    if leb c b'-' && leb b'-' c
    then in_range true (parse_digits s)
    else if leb c b'+' && leb b'+' c
    then in_range false (parse_digits s)
    else in_range false (parse_digits (c ∷ s))

unfoldable pub atoi : String → Option ℤ
unfolding atoi_codes
atoi s = atoi_codes (codes s)

abbrev pub is_one_of : String → List String → Bool
is_one_of s [] = false
is_one_of s (t ∷ ts) = s == t || is_one_of s ts

unfoldable pub parse_bool : String → Option Bool
parse_bool s =
    if is_one_of s ("1" ∷ "t" ∷ "T" ∷ "true" ∷ "TRUE" ∷ "True" ∷ [])
    then some true
    else if is_one_of s ("0" ∷ "f" ∷ "F" ∷ "false" ∷ "FALSE" ∷ "False" ∷ [])
    then some false
    else none
