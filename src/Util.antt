-- ===== src/Util.antt =====
-- The numeric and text helpers of src/relay_shell/util.py.
use relay_shell.Prelude.{
  ℕ, ◌+◌, ◌-◌, ◌≤◌, ◌≡◌, Bool, [], ◌∷◌, ◌++◌, Text, codes, ltb, leb, ◌==◌, ◌&&◌, if◌then◌else◌,
  arith, show_nat, ℤ, pos, negsuc, min, max,
}

-- The bounds are settings and constants, none negative; the value is any integer, and `min` and
-- `max` of a negative one are the lower bound.
unfoldable pub clamp : ℤ → ℕ → ℕ → ℕ
clamp (pos value) lo hi = if ltb hi lo then max hi (min lo value) else max lo (min hi value)
clamp (negsuc value) lo hi = if ltb hi lo then hi else lo

-- The bytes of a character, under `encode("utf-8", "replace")`: a surrogate is `?`.
unfoldable pub is_surrogate : ℕ → Bool
is_surrogate c = leb 55296 c && leb c 57343

unfoldable pub width : ℕ → ℕ
unfolding is_surrogate
width c =
    if ltb c 128
    then 1
    else if ltb c 2048
    then 2
    else if is_surrogate c
    then 1
    else if ltb c 65536
    then 3
    else 4

unfoldable pub byte_length : Text → ℕ
unfolding width
byte_length [] = 0
byte_length (c ∷ s) = width c + byte_length s

-- `raw[:limit].decode("utf-8", "replace")`: a character cut in two is one replacement character.
unfoldable pub head_bytes : ℕ → Text → Text
unfolding width is_surrogate
head_bytes limit [] = []
head_bytes limit (c ∷ s) =
    let rest = head_bytes (limit - width c) s in
    if leb (width c) limit
    then (if is_surrogate c then 63 else c) ∷ rest
    else if limit == 0
    then []
    else 65533 ∷ []

unfoldable pub truncate : Text → ℕ → Text
unfolding byte_length head_bytes
truncate text limit =
    if leb (byte_length text) limit
    then text
    else head_bytes limit text
      ++ codes "\n\n[TRUNCATED - "
      ++ show_nat (byte_length text)
      ++ codes " bytes total, "
      ++ show_nat limit
      ++ codes " shown]"

-- The clamped value lies between the bounds, given in either order; a value between them is kept,
-- and one outside is moved to the bound that it passed.
pub clamp-within :
    (value : ℤ) (lo hi : ℕ)
    → (min lo hi ≤ clamp value lo hi)
      × (clamp value lo hi ≤ max lo hi)
      × ((n : ℕ) → value ≡ pos n → min lo hi ≤ n → n ≤ max lo hi → clamp value lo hi ≡ n)
      × ((n : ℕ) → value ≡ pos n → max lo hi ≤ n → clamp value lo hi ≡ max lo hi)
      × ((n : ℕ) → value ≡ negsuc n → clamp value lo hi ≡ min lo hi)
unfolding clamp
clamp-within (pos value) lo hi = ground arith
clamp-within (negsuc value) lo hi = ground arith

-- The text that `truncate` keeps of a longer one takes at most two bytes over the limit: the
-- replacement character of a split character can add them.
pub byte_length-head_bytes : (limit : ℕ) (s : Text) → byte_length (head_bytes limit s) ≤ limit + 2
unfolding byte_length head_bytes width is_surrogate
byte_length-head_bytes limit [] = omega arith
byte_length-head_bytes limit (c ∷ s) = ground (arith, byte_length-head_bytes (limit - width c) s)
