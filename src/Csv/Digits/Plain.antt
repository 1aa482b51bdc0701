-- ===== src/Csv/Digits/Plain.antt =====
-- Texts of digits and minus signs, such as numbers and dates: nothing in them is trimmed.
use Prim.Native.Char.{code}
use Prim.Native.String.{String, [], ◌∷◌}
use arran.Prelude.{
  ℕ, zero, suc, ◌/◌, ◌%◌, ◌<◌, ◌≡◌, refl, ap, ◌∙◌, true, ◌⊎◌, inl, inr, arith, ltb, Bool-cases,
}
use arran.Prelude.Text.{trim_space, trim_left, trim_right}
use arran.Prelude.Int.{ℤ, pos, negsuc}
use arran.Csv.Digits.{is_digit, digit_onto, decimal_onto, format_nat, format_int}
use arran.Csv.Digits.RoundTrip.{digit_onto_cons}

-- A text of digits and minus signs.
abbrev pub Plain : String → Type 0
Plain [] = Unit
Plain (c ∷ s) = ((is_digit c ≡ true) ⊎ (code c ≡ b'-')) × Plain s

pub digit_onto-Plain : (d : ℕ) (s : String) → d < 10 → Plain s → Plain (digit_onto d s)
unfolding is_digit
digit_onto-Plain d s h p =
    let (c, e, k) = digit_onto_cons d s h in rw e (inl (ground (arith, k)), p)

decimal_onto-Plain : (fuel n : ℕ) (s : String) → Plain s → Plain (decimal_onto fuel n s)
unfolding decimal_onto
decimal_onto-Plain zero n s p = p
decimal_onto-Plain (suc fuel) n s p = elim (Bool-cases (ltb n 10)) [
  | inl small ↦ rw small (digit_onto-Plain n s (ground arith) p)
  | inr large ↦ rw large (
      decimal_onto-Plain fuel (n / 10) (digit_onto (n % 10) s)
        (digit_onto-Plain (n % 10) s (omega arith) p))
]

pub format_int-Plain : (z : ℤ) → Plain (format_int z)
unfolding format_int format_nat
format_int-Plain (pos n) = decimal_onto-Plain 20 n "" tt
format_int-Plain (negsuc n) = (inr refl, decimal_onto-Plain 20 (suc n) "" tt)

trim_right-Plain : (s : String) → Plain s → trim_right s ≡ s
unfolding trim_right is_digit
trim_right-Plain [] h = refl
trim_right-Plain (c ∷ s) h = ground (arith, trim_right-Plain s h.1)

trim_left-Plain : (s : String) → Plain s → trim_left s ≡ s
unfolding trim_left is_digit
trim_left-Plain [] h = refl
trim_left-Plain (c ∷ s) h = ground arith

pub trim_space-Plain : (s : String) → Plain s → trim_space s ≡ s
unfolding trim_space
trim_space-Plain s h = ap trim_right (trim_left-Plain s h) ∙ trim_right-Plain s h
