-- ===== src/Prelude/Numerals.antt =====
-- Decimal numerals as text, for the f-strings of the source.
use Prim.Native.Nat.{ℕ, zero, suc, ◌+◌, ◌-◌, ◌*◌, ◌/◌, ◌%◌, ◌≤◌}
use mathlib.Core.Path.{◌≡◌, refl, sym, ap, ◌∙◌}
use mathlib.Core.Logic.{inl, inr}
use native.Mathlib.Omega.{arith}
use mathlib.Core.List.{[], ◌∷◌, ◌++◌}
use relay_shell.Prelude.Tests.{ltb, if◌then◌else◌, Bool-cases}
use relay_shell.Prelude.Lists.{All, All-append}
use relay_shell.Prelude.Texts.{Text}
use relay_shell.Prelude.Int.{ℤ, pos, negsuc}

-- One digit a round: the number itself is fuel enough.
unfoldable pub digits : ℕ → ℕ → Text
digits zero n = (48 + n % 10) ∷ []
digits (suc fuel) n =
    let front = digits fuel (n / 10) in
    if ltb n 10 then (48 + n) ∷ [] else front ++ (48 + n % 10) ∷ []

unfoldable pub show_nat : ℕ → Text
unfolding digits
show_nat n = digits n n

unfoldable pub show_int : ℤ → Text
unfolding show_nat
show_int (pos n) = show_nat n
show_int (negsuc n) = 45 ∷ show_nat (suc n)

-- The value of the decimal digits of a text, from the value of those before it.
abbrev pub value_from : ℕ → Text → ℕ
value_from acc [] = acc
value_from acc (c ∷ s) = value_from (10 * acc + (c - 48)) s

value_from-append :
    (acc : ℕ) (s : Text) (c : ℕ) → value_from acc (s ++ c ∷ []) ≡ 10 * value_from acc s + (c - 48)
value_from-append acc [] c = refl
value_from-append acc (d ∷ s) c = value_from-append (10 * acc + (d - 48)) s c

pub value_from-digits : (fuel n : ℕ) → n ≤ fuel → value_from 0 (digits fuel n) ≡ n
unfolding digits
value_from-digits zero n h = ground arith
value_from-digits (suc fuel) n h = elim (Bool-cases (ltb n 10)) [
  | inl small ↦ rw small (ground arith)
  | inr big ↦
      rw
        (
          big,
          value_from-append 0 (digits fuel (n / 10)) (48 + n % 10),
          value_from-digits fuel (n / 10) (ground arith),
        )
        (omega arith)
]

-- A numeral is read back as its number.
pub value_from-show_nat : (n : ℕ) → value_from 0 (show_nat n) ≡ n
unfolding show_nat
value_from-show_nat n = value_from-digits n n (omega arith)

pub show_nat-inj : (m n : ℕ) → show_nat m ≡ show_nat n → m ≡ n
show_nat-inj m n e = sym (value_from-show_nat m) ∙ ap (value_from 0) e ∙ value_from-show_nat n

-- Every character of a numeral is an ASCII digit.
abbrev pub IsDigits : Text → Type 0
IsDigits s = All (λ c. (48 ≤ c) × (c ≤ 57)) s

digits-IsDigits : (fuel n : ℕ) → n ≤ fuel → IsDigits (digits fuel n)
unfolding digits
digits-IsDigits zero n h = (ground arith, tt)
digits-IsDigits (suc fuel) n h = elim (Bool-cases (ltb n 10)) [
  | inl small ↦ rw small (ground arith, tt)
  | inr big ↦ rw big (
      All-append (λ c. (48 ≤ c) × (c ≤ 57)) (digits fuel (n / 10)) ((48 + n % 10) ∷ [])
        (digits-IsDigits fuel (n / 10) (ground arith)) (omega arith, tt))
]

pub show_nat-IsDigits : (n : ℕ) → IsDigits (show_nat n)
unfolding show_nat
show_nat-IsDigits n = digits-IsDigits n n (omega arith)
