-- ===== src/Config/Parse/Laws.antt =====
-- strconv.Atoi as getEnvInt of internal/config/config.go calls it.
use reservation_worker.Base.{
  ℕ, zero, suc, ◌+◌, ◌-◌, ◌*◌, ◌≤◌, ◌≡◌, refl, arith, Bool, true, false, Option, none, some, List,
  [], ◌∷◌, ℤ, pos, Fits, half64, ltb, leb, ◌&&◌, All, if◌then◌else◌,
}
use reservation_worker.Config.Parse.Defs.{scan_digits, parse_digits, in_range, atoi_codes}

abbrev pub IsDigit : ℕ → Type 0
IsDigit c = (b'0' ≤ c) × (c ≤ b'9')

-- The number that digits spell behind `n`.
abbrev pub value : ℕ → List ℕ → ℕ
value n [] = n
value n (c ∷ s) = value (n * 10 + (c - b'0')) s

scan_digits_complete : (s : List ℕ) (n : ℕ) → All IsDigit s → scan_digits s n ≡ some (value n s)
unfolding scan_digits
scan_digits_complete [] n h = refl
scan_digits_complete (c ∷ s) n h = ground (arith, scan_digits_complete s (n * 10 + (c - b'0')) h.1)

-- A run of digits is read as the number that it spells, and refused from 2^63 on.
pub atoi_codes-digits :
    (c : ℕ) (s : List ℕ)
    → All IsDigit (c ∷ s)
    → atoi_codes (c ∷ s)
      ≡ (if ltb (value 0 (c ∷ s)) half64 then some (pos (value 0 (c ∷ s))) else none)
unfolding atoi_codes
atoi_codes-digits c s h = ground (arith, scan_digits_complete (c ∷ s) 0 h)

abbrev IsFit : Option ℤ → Type 0
IsFit none = Unit
IsFit (some z) = Fits half64 z

IsFit-if : (b : Bool) (x y : Option ℤ) → IsFit x → IsFit y → IsFit (if b then x else y)
IsFit-if true x y p q = p
IsFit-if false x y p q = q

in_range-IsFit : (minus : Bool) (o : Option ℕ) → IsFit (in_range minus o)
unfolding in_range
in_range-IsFit minus none = tt
in_range-IsFit false (some n) = ground arith
in_range-IsFit true (some zero) = ground arith
in_range-IsFit true (some (suc n)) = ground arith

atoi_codes-IsFit : (s : List ℕ) → IsFit (atoi_codes s)
unfolding atoi_codes
atoi_codes-IsFit [] = tt
atoi_codes-IsFit (c ∷ s) =
    IsFit-if (leb c b'-' && leb b'-' c) _ _ (in_range-IsFit true (parse_digits s)) (
      IsFit-if (leb c b'+' && leb b'+' c) _ _ (in_range-IsFit false (parse_digits s))
        (in_range-IsFit false (parse_digits (c ∷ s))))

-- Whatever is read fits an int of 64 bits.
pub atoi_codes-Fits : (s : List ℕ) {z : ℤ} → atoi_codes s ≡ some z → Fits half64 z
atoi_codes-Fits s h = rw h at (atoi_codes-IsFit s)
