-- ===== src/Prelude/Split.antt =====
-- The text methods that cut a text: `split`, `splitlines`, `partition`, `rpartition`, `in`.
use Prim.Native.Nat.{ℕ}
use mathlib.Core.Path.{◌≡◌, refl}
use mathlib.Core.Logic.{◌≢◌}
use mathlib.Core.Bool.{Bool, true, false, ◌&&◌, ◌||◌}
use mathlib.Core.List.{List, [], ◌∷◌, ◌++◌, append_assoc, append-nil}
use native.Mathlib.Omega.{arith}
use relay_shell.Prelude.Tests.{◌==◌, leb, if◌then◌else◌}
use relay_shell.Prelude.Lists.{All}
use relay_shell.Prelude.Texts.{Text, text_eq, is_space, starts_with}

-- A text without one character.
abbrev pub IsFree : ℕ → Text → Type 0
IsFree c s = All (λ d. d ≢ c) s

sep_inside : (c : ℕ) (t b : Text) → IsFree c (t ++ c ∷ b) → ⊥
sep_inside c [] b h = h.0 refl
sep_inside c (d ∷ t) b h = sep_inside c t b h.1

-- The last separator of a text splits it.
pub split_last :
    (c : ℕ) (s t a b : Text) → IsFree c a → IsFree c b → s ++ c ∷ a ≡ t ++ c ∷ b → (s ≡ t) × (a ≡ b)
split_last c [] [] a b p q e = (refl, cc)
split_last c [] (d ∷ t) a b p q e =
    let same : a ≡ t ++ c ∷ b = cc in absurd (sep_inside c t b (rw same at p))
split_last c (d ∷ s) [] a b p q e =
    let same : b ≡ s ++ c ∷ a = cc in absurd (sep_inside c s a (rw same at q))
split_last c (d ∷ s) (d' ∷ t) a b p q e =
    let (front, back) = split_last c s t a b p q cc in
    (let head : d ≡ d' = cc in rw (front, head) refl, back)

-- The first separator does as well.
pub split_first :
    (c : ℕ) (s t a b : Text) → IsFree c s → IsFree c t → s ++ c ∷ a ≡ t ++ c ∷ b → (s ≡ t) × (a ≡ b)
split_first c [] [] a b p q e = (refl, cc)
split_first c [] (d ∷ t) a b p q e = absurd (let z : d ≡ c = cc in q.0 z)
split_first c (d ∷ s) [] a b p q e = absurd (let z : d ≡ c = cc in p.0 z)
split_first c (d ∷ s) (d' ∷ t) a b p q e =
    let (front, back) = split_first c s t a b p.1 q.1 cc in
    (let head : d ≡ d' = cc in rw (front, head) refl, back)

unfoldable pub cons_head : ℕ → List Text → List Text
cons_head d [] = (d ∷ []) ∷ []
cons_head d (t ∷ ts) = (d ∷ t) ∷ ts

-- `str.split(sep)` of a one-character separator.
unfoldable pub split_on : ℕ → Text → List Text
unfolding cons_head
split_on c [] = [] ∷ []
split_on c (d ∷ s) = let rest = split_on c s in if d == c then [] ∷ rest else cons_head d rest

pub split_on-append : (c : ℕ) (s t : Text) → IsFree c s → split_on c (s ++ c ∷ t) ≡ s ∷ split_on c t
unfolding split_on cons_head
split_on-append c [] t h = ground arith
split_on-append c (d ∷ s) t h = ground (arith, split_on-append c s t h.1)

pub split_on_free : (c : ℕ) (s : Text) → IsFree c s → split_on c s ≡ s ∷ []
unfolding split_on cons_head
split_on_free c [] h = refl
split_on_free c (d ∷ s) h = ground (arith, split_on_free c s h.1)

-- `str.partition(sep)`: what is before the first separator, whether there is one, what is after it.
unfoldable pub partition : ℕ → Text → Text × Bool × Text
partition c [] = ([], false, [])
partition c (d ∷ s) =
    let rest = partition c s in if d == c then ([], true, s) else (d ∷ rest.0, rest.1, rest.2)

pub partition-append : (c : ℕ) (s t : Text) → IsFree c s → partition c (s ++ c ∷ t) ≡ (s, true, t)
unfolding partition
partition-append c [] t h = ground arith
partition-append c (d ∷ s) t h = ground (arith, partition-append c s t h.1)

-- `str.rpartition(sep)`
unfoldable pub rpartition : ℕ → Text → Text × Bool × Text
rpartition c [] = ([], false, [])
rpartition c (d ∷ s) =
    let rest = rpartition c s in
    if rest.1
    then (d ∷ rest.0, true, rest.2)
    else if d == c
    then ([], true, s)
    else ([], false, d ∷ s)

unfoldable pub flush : Text → List Text → List Text
flush [] ts = ts
flush (c ∷ s) ts = (c ∷ s) ∷ ts

-- `str.split()` on white space, with the word read so far.
unfoldable pub words_from : Text → Text → List Text
unfolding flush is_space
words_from word [] = flush word []
words_from word (c ∷ s) =
    let next = words_from [] s in
    let on = words_from (word ++ c ∷ []) s in if is_space c then flush word next else on

unfoldable pub words : Text → List Text
unfolding words_from
words s = words_from [] s

-- A word up to the next white space.
pub words_from-append :
    (word s t : Text)
    → All (λ c. is_space c ≡ false) s
    → words_from word (s ++ 32 ∷ t) ≡ flush (word ++ s) (words_from [] t)
unfolding words_from
words_from-append word [] t h = rw (append-nil word) refl
words_from-append word (c ∷ s) t h =
    rw (h.0, words_from-append (word ++ c ∷ []) s t h.1, append_assoc word (c ∷ []) s) refl

-- The line boundaries of `str.splitlines`.
unfoldable pub is_break : ℕ → Bool
is_break c = (leb 10 c && leb c 13) || (leb 28 c && leb c 30) || c == 133 || c == 8232 || c == 8233

-- The loop of `str.splitlines`; the flag is set behind a carriage return, which a line feed joins.
unfoldable pub lines_from : Bool → Text → Text → List Text
unfolding is_break flush
lines_from after line [] = flush line []
lines_from after line (c ∷ s) =
    let joined = lines_from false line s in
    let next = lines_from (c == 13) [] s in
    let on = lines_from false (line ++ c ∷ []) s in
    if after && c == 10 then joined else if is_break c then line ∷ next else on

unfoldable pub splitlines : Text → List Text
unfolding lines_from
splitlines s = lines_from false [] s

-- `b in s` for texts.
unfoldable pub contains : Text → Text → Bool
contains b [] = text_eq b []
contains b (c ∷ s) = starts_with b (c ∷ s) || contains b s

-- `s.endswith(c)` of one character.
unfoldable pub ends_with : ℕ → Text → Bool
ends_with c [] = false
ends_with c (d ∷ s) = let rest = ends_with c s in if text_eq s [] then d == c else rest

-- Does a text of the list pass the test?
unfoldable pub any_of : (Text → Bool) → List Text → Bool
any_of p [] = false
any_of p (s ∷ ss) = p s || any_of p ss

-- The last line, with its line feed.
lines_from_rest :
    (line s : Text)
    → All (λ c. is_break c ≡ false) s
    → lines_from false line (s ++ 10 ∷ []) ≡ (line ++ s) ∷ []
unfolding lines_from is_break flush
lines_from_rest line [] h = rw (append-nil line) refl
lines_from_rest line (c ∷ s) h =
    rw (h.0, lines_from_rest (line ++ c ∷ []) s h.1, append_assoc line (c ∷ []) s) refl

line_last :
    (p : Text → Bool) (after : Bool) (start a line : Text)
    → (after ≡ true → start ≡ [])
    → All (λ c. is_break c ≡ false) line
    → p line ≡ true
    → any_of p (lines_from after start (a ++ 10 ∷ (line ++ 10 ∷ []))) ≡ true
unfolding lines_from any_of
line_last p true start [] line w h ok_line = rw (w refl, lines_from_rest [] line h) (ground arith)
line_last p false start [] line w h ok_line = rw (lines_from_rest [] line h) (ground arith)
line_last p after start (c ∷ a) line w h ok_line = ground (
  arith,
  line_last p false start a line (λ e. cc) h ok_line,
  line_last p (c == 13) [] a line (λ e. refl) h ok_line,
  line_last p false (start ++ c ∷ []) a line (λ e. cc) h ok_line,
)

-- A line behind a line feed, or at the start of the text, that ends the text with its line feed is
-- one of the lines.
pub splitlines-any_of :
    (p : Text → Bool) (a line : Text)
    → All (λ c. is_break c ≡ false) line
    → p line ≡ true
    → any_of p (splitlines (a ++ 10 ∷ (line ++ 10 ∷ []))) ≡ true
unfolding splitlines
splitlines-any_of p a line h ok_line = line_last p false [] a line (λ e. cc) h ok_line

pub splitlines_line :
    (p : Text → Bool) (line : Text)
    → All (λ c. is_break c ≡ false) line
    → p line ≡ true
    → any_of p (splitlines (line ++ 10 ∷ [])) ≡ true
unfolding splitlines any_of
splitlines_line p line h ok_line = rw (lines_from_rest [] line h) (ground arith)
