-- ===== src/Prelude/Texts.antt =====
-- JavaScript strings as the lists of their UTF-16 code units, and the string operations that the
-- source uses.
use Prim.Native.Nat.{ℕ, zero, suc, ◌+◌, ◌*◌, ◌-◌, ◌/◌, ◌%◌, ◌≤◌}
use Prim.Native.Char.{code}
use Prim.Native.String.{String}
use mathlib.Core.Path.{◌≡◌, refl, ap, ◌∙◌}
use mathlib.Core.Logic.{◌↔◌, inl, inr}
use mathlib.Core.Bool.{Bool, true, false, ◌&&◌, ◌||◌}
use mathlib.Core.List.{List, [], ◌∷◌}
use native.Mathlib.Omega.{arith}
use spark_ln_address.Prelude.Tests.{leb, ltb, ◌==◌, if◌then◌else◌, Bool-cases}

abbrev pub Text : Type 0
Text = List ℕ

abbrev pub codes : String → Text
codes String.[] = []
codes (String.◌∷◌ c s) = code c ∷ codes s

unfoldable pub text_eq : Text → Text → Bool
text_eq [] [] = true
text_eq (x ∷ xs) (y ∷ ys) = x == y && text_eq xs ys
text_eq _ _ = false

pub text_eq_sound : (a b : Text) → text_eq a b ≡ true → a ≡ b
unfolding text_eq
text_eq_sound [] [] h = refl
text_eq_sound (x ∷ xs) (y ∷ ys) h = ground (arith, text_eq_sound xs ys)
text_eq_sound _ _ h = cc

pub text_eq_refl : (a : Text) → text_eq a a ≡ true
unfolding text_eq
text_eq_refl [] = refl
text_eq_refl (x ∷ xs) = ground (arith, text_eq_refl xs)

pub text_eq_complete : (a b : Text) → a ≡ b → text_eq a b ≡ true
text_eq_complete a b e = rw e (text_eq_refl b)

pub text_eq_iff : (a b : Text) → (text_eq a b ≡ true) ↔ (a ≡ b)
text_eq_iff a b = (text_eq_sound a b, text_eq_complete a b)

-- `!s`: the empty string is falsy.
abbrev pub is_empty {ℓ} : {A : Type ℓ} → List A → Bool
is_empty [] = true
is_empty (x ∷ xs) = false

unfoldable pub mem_text : Text → List Text → Bool
mem_text t [] = false
mem_text t (x ∷ xs) = text_eq x t || mem_text t xs

-- `prefix` of `s.startsWith(prefix)`.
unfoldable pub starts_with : Text → Text → Bool
starts_with [] s = true
starts_with (p ∷ ps) [] = false
starts_with (p ∷ ps) (c ∷ s) = p == c && starts_with ps s

-- `s.includes(part)`.
unfoldable pub includes : Text → Text → Bool
unfolding starts_with
includes part [] = starts_with part []
includes part (c ∷ s) = starts_with part (c ∷ s) || includes part s

abbrev pub is_digit : ℕ → Bool
is_digit c = leb b'0' c && leb c b'9'

abbrev pub is_lower : ℕ → Bool
is_lower c = leb b'a' c && leb c b'z'

abbrev pub is_upper : ℕ → Bool
is_upper c = leb b'A' c && leb c b'Z'

-- `[0-9a-fA-F]`.
abbrev pub is_hex : ℕ → Bool
is_hex c = is_digit c || (leb b'a' c && leb c b'f') || (leb b'A' c && leb c b'F')

-- The value of a run of decimal digits.
unfoldable pub decimal_from : ℕ → Text → ℕ
decimal_from acc [] = acc
decimal_from acc (c ∷ s) = decimal_from (acc * 10 + (c - b'0')) s

unfoldable pub decimal : Text → ℕ
unfolding decimal_from
decimal s = decimal_from 0 s

-- `String(n)`: the digits of `n` before those of `rest`, in at most `rounds` divisions.
unfoldable pub digits_before : ℕ → ℕ → Text → Text
digits_before zero n rest = (b'0' + n) ∷ rest
digits_before (suc rounds) n rest =
    let more = digits_before rounds (n / 10) ((b'0' + n % 10) ∷ rest) in
    if ltb n 10 then (b'0' + n) ∷ rest else more

unfoldable pub decimal_text : ℕ → Text
unfolding digits_before
decimal_text n = digits_before n n []

decimal_from-digits_before :
    (rounds n : ℕ) (rest : Text)
    → n ≤ rounds
    → decimal_from 0 (digits_before rounds n rest) ≡ decimal_from n rest
unfolding digits_before decimal_from
decimal_from-digits_before zero n rest h = ap (λ k. decimal_from k rest) (omega arith)
decimal_from-digits_before (suc rounds) n rest h = elim (Bool-cases (ltb n 10)) [
  | inl small ↦ rw small (ap (λ k. decimal_from k rest) (omega arith))
  | inr big ↦ rw big (
      decimal_from-digits_before rounds (n / 10) ((b'0' + n % 10) ∷ rest) (ground arith)
      ∙ ap (λ k. decimal_from k rest) (omega arith))
]

pub decimal-decimal_text : (n : ℕ) → decimal (decimal_text n) ≡ n
unfolding decimal decimal_text
decimal-decimal_text n = decimal_from-digits_before n n [] (omega arith)
