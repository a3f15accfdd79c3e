-- ===== src/Prelude/Parse.antt =====
-- `int(s)` of the source: white space around, a sign, decimal digits with single underscores between
-- them, and at most 4300 digits. The decimal digits beyond ASCII are those of the Unicode database,
-- an argument.
use Prim.Native.Nat.{ℕ, zero, suc, ◌+◌, ◌-◌, ◌*◌, ◌/◌, ◌%◌, ◌≤◌, ◌<◌}
use mathlib.Core.Path.{◌≡◌, refl, ap, ◌∙◌}
use mathlib.Core.Logic.{◌≢◌}
use mathlib.Core.Bool.{Bool, true, false, not, ◌&&◌, ◌||◌}
use mathlib.Core.List.{[], ◌∷◌}
use mathlib.Core.Option.{Option, none, some}
use native.Mathlib.Omega.{arith}
use relay_shell.Prelude.Tests.{◌==◌, ltb, leb, if◌then◌else◌}
use relay_shell.Prelude.Lists.{length, count_if, length-append}
use relay_shell.Prelude.Texts.{Text, is_space, text_eq}
use relay_shell.Prelude.Int.{ℤ, pos, negsuc}
use relay_shell.Prelude.Numerals.{
  digits, show_nat, value_from, value_from-show_nat, IsDigits, show_nat-IsDigits,
}

-- What `int` strips: an ASCII character it takes as C does, another as `str.isspace`.
unfoldable pub is_int_space : ℕ → Bool
unfolding is_space
is_int_space c = (leb 9 c && leb c 13) || c == 32 || (ltb 126 c && is_space c)

unfoldable pub lstrip_int : Text → Text
unfolding is_int_space
lstrip_int [] = []
lstrip_int (c ∷ s) = let rest = lstrip_int s in if is_int_space c then rest else c ∷ s

unfoldable pub rstrip_int : Text → Text
unfolding is_int_space
rstrip_int [] = []
rstrip_int (c ∷ s) =
    let rest = rstrip_int s in if is_int_space c && text_eq rest [] then [] else c ∷ rest

unfoldable pub digit_value : (ℕ → Option ℕ) → ℕ → Option ℕ
digit_value decimal c =
    if leb 48 c && leb c 57 then some (c - 48) else if ltb 126 c then decimal c else none

unfoldable pub on_digit : Option ℕ → (ℕ → Option ℕ) → Option ℕ
on_digit none next = none
on_digit (some v) next = next v

-- The digits; the flag is set behind a digit.
unfoldable pub read_digits : (ℕ → Option ℕ) → Bool → ℕ → Text → Option ℕ
unfolding digit_value on_digit
read_digits decimal after acc [] = if after then some acc else none
read_digits decimal after acc (c ∷ s) =
    let under = read_digits decimal false acc s in
    let next : ℕ → Option ℕ = λ v. read_digits decimal true (10 * acc + v) s in
    if c == 95 then (if after then under else none) else on_digit (digit_value decimal c) next

unfoldable pub is_digit_char : ℕ → Bool
is_digit_char c = not (c == 95)

unfoldable pub read_number : (ℕ → Option ℕ) → Text → Option ℕ
unfolding read_digits count_if is_digit_char
read_number decimal s =
    if ltb 4300 (count_if is_digit_char s) then none else read_digits decimal false 0 s

unfoldable pub negate : ℕ → ℤ
negate zero = pos 0
negate (suc n) = negsuc n

unfoldable pub with_sign : (ℕ → ℤ) → Option ℕ → Option ℤ
with_sign f none = none
with_sign f (some n) = some (f n)

unfoldable pub read_signed : (ℕ → Option ℕ) → Text → Option ℤ
unfolding read_number with_sign negate
read_signed decimal [] = none
read_signed decimal (c ∷ s) =
    if c == 45
    then with_sign negate (read_number decimal s)
    else if c == 43
    then with_sign pos (read_number decimal s)
    else with_sign pos (read_number decimal (c ∷ s))

-- `int(s)`; `none` is `ValueError`.
unfoldable pub parse_int : (ℕ → Option ℕ) → Text → Option ℤ
unfolding read_signed lstrip_int rstrip_int
parse_int decimal s = read_signed decimal (rstrip_int (lstrip_int s))

digit_char : (c : ℕ) → 48 ≤ c → c ≤ 57 → is_int_space c ≡ false
unfolding is_int_space is_space
digit_char c a b = ground arith

rstrip_int-digits : (s : Text) → IsDigits s → rstrip_int s ≡ s
unfolding rstrip_int
rstrip_int-digits [] h = refl
rstrip_int-digits (c ∷ s) h = rw (digit_char c h.0.0 h.0.1, rstrip_int-digits s h.1) refl

read_digits-digits :
    (decimal : ℕ → Option ℕ) (acc : ℕ) (s : Text)
    → IsDigits s
    → read_digits decimal true acc s ≡ some (value_from acc s)
unfolding read_digits digit_value on_digit
read_digits-digits decimal acc [] h = refl
read_digits-digits decimal acc (c ∷ s) h =
    ground (arith, read_digits-digits decimal (10 * acc + (c - 48)) s h.1)

-- The digits of a small number are few.
Few : ℕ → ℕ → Type 0
Few bound most = (fuel n : ℕ) → n < bound → length (digits fuel n) ≤ most

Few-ten : Few 10 1
unfolding Few digits
Few-ten zero n h = omega arith
Few-ten (suc fuel) n h = ground arith

Few-more : (bound most : ℕ) → Few bound most → Few (10 * bound) (suc most)
unfolding Few digits
Few-more bound most f zero n h = omega arith
Few-more bound most f (suc fuel) n h =
    ground (arith, f fuel (n / 10), length-append (digits fuel (n / 10)) ((48 + n % 10) ∷ []))

pub length-show_nat : (n : ℕ) → n < 100000 → length (show_nat n) ≤ 5
unfolding show_nat Few
length-show_nat n h =
    Few-more 10000 4 (Few-more 1000 3 (Few-more 100 2 (Few-more 10 1 Few-ten))) n n h

count_if-le_length : (s : Text) → count_if is_digit_char s ≤ length s
unfolding count_if
count_if-le_length [] = omega arith
count_if-le_length (c ∷ s) = ground (arith, count_if-le_length s)

read_number-digits :
    (decimal : ℕ → Option ℕ) (c : ℕ) (s : Text)
    → IsDigits (c ∷ s)
    → length (c ∷ s) ≤ 4300
    → read_number decimal (c ∷ s) ≡ some (value_from 0 (c ∷ s))
unfolding read_number read_digits digit_value on_digit
read_number-digits decimal c s h few =
    ground (arith, count_if-le_length (c ∷ s), read_digits-digits decimal (c - 48) s h.1)

lstrip_int-digits : (s : Text) → IsDigits s → lstrip_int s ≡ s
unfolding lstrip_int
lstrip_int-digits [] h = refl
lstrip_int-digits (c ∷ s) h = rw (digit_char c h.0.0 h.0.1) refl

read_signed-digits :
    (decimal : ℕ → Option ℕ) (s : Text)
    → IsDigits s
    → s ≢ []
    → length s ≤ 4300
    → read_signed decimal s ≡ some (pos (value_from 0 s))
unfolding read_signed with_sign
read_signed-digits decimal [] h n few = absurd (n refl)
read_signed-digits decimal (c ∷ s) h n few = ground (arith, read_number-digits decimal c s h few)

length-digits : (fuel n : ℕ) → 1 ≤ length (digits fuel n)
unfolding digits
length-digits zero n = omega arith
length-digits (suc fuel) n =
    ground (arith, length-append (digits fuel (n / 10)) ((48 + n % 10) ∷ []))

show_nat-ne : (n : ℕ) → show_nat n ≢ []
unfolding show_nat
show_nat-ne n e =
    let none_left : length (digits n n) ≡ 0 = ap length e in
    omega (arith, none_left, length-digits n n)

-- The numeral of a number of at most 4300 digits is read as the number.
pub parse_int-show_nat :
    (decimal : ℕ → Option ℕ) (n : ℕ)
    → length (show_nat n) ≤ 4300
    → parse_int decimal (show_nat n) ≡ some (pos n)
unfolding parse_int
parse_int-show_nat decimal n few =
    let is = show_nat-IsDigits n in
    rw (lstrip_int-digits (show_nat n) is, rstrip_int-digits (show_nat n) is)
      (read_signed-digits decimal (show_nat n) is (show_nat-ne n) few
        ∙ ap (λ k. some (pos k)) (value_from-show_nat n))
