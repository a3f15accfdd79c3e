-- ===== src/Sessions/Line.antt =====
-- The partial line of a session (`_advance_line` of src/relay_shell/sessions.py) and the cut that
-- spares UTF-8 characters (`_utf8_cut`).
use relay_shell.Prelude.{
  append_assoc, ℕ, zero, suc, ◌+◌, ◌-◌, ◌≤◌, ◌<◌, ◌≡◌, refl, Bool, true, false, ◌&&◌, ◌||◌, List,
  [], ◌∷◌, ◌++◌, Option, none, some, Text, length, drop, get_elem?, leb, ltb, ◌==◌, if◌then◌else◌,
  Option-cases, Bool-cases, inl, inr, arith, length-append, length-drop, take-append-drop, take, ap,
  ◌∙◌, sym,
}
use relay_shell.Prelude.Tests.{leb→le}

-- `_LINE_RESET`
unfoldable pub is_reset : ℕ → Bool
is_reset c = c == 10 || c == 13 || c == 3 || c == 21

-- The last position of a reset character: the maximum of the four `rfind`.
unfoldable pub last_reset : Text → Option ℕ
unfolding is_reset
last_reset [] = none
last_reset (c ∷ s) =
    let rest = last_reset s in
    elim rest [ some i ↦ some (suc i) | none ↦ if is_reset c then some 0 else none ]

-- `line[-n:]`
unfoldable pub last_chars : ℕ → Text → Text
last_chars n s = drop (length s - n) s

unfoldable pub line_after : Text → Text → Option ℕ → Text
line_after pending typed (some cut) = drop (suc cut) typed
line_after pending typed none = pending ++ typed

unfoldable pub advance_line : Text → Text → Text
unfolding last_reset last_chars line_after
advance_line pending typed = last_chars 4096 (line_after pending typed (last_reset typed))

-- A continuation byte of UTF-8: `byte & 0xC0 == 0x80`.
unfoldable pub is_continuation : Option ℕ → Bool
is_continuation none = false
is_continuation (some b) = leb 128 b && leb b 191

-- The loop of `_utf8_cut`, which takes at most four steps down.
unfoldable pub back_up : List ℕ → ℕ → ℕ → ℕ
unfolding is_continuation
back_up bs zero end = end
back_up bs (suc steps) zero = zero
back_up bs (suc steps) (suc end) =
    let rest = back_up bs steps end in
    if is_continuation (get_elem? bs (suc end)) then rest else suc end

unfoldable pub utf8_cut : List ℕ → ℕ → ℕ
unfolding back_up is_continuation
utf8_cut bs limit =
    if leb (length bs) limit
    then length bs
    else (let end = back_up bs 4 limit in
        if ltb 0 end && (if is_continuation (get_elem? bs end) then false else true)
        then end
        else limit)

back_up-le :
    (bs : List ℕ) (steps end : ℕ)
    → (back_up bs steps end ≤ end) × (end ≤ back_up bs steps end + steps)
unfolding back_up
back_up-le bs zero end = omega arith
back_up-le bs (suc steps) zero = omega arith
back_up-le bs (suc steps) (suc end) = ground (arith, back_up-le bs steps end)

-- The cut is within the limit, takes at least one byte where there is one and the limit allows it,
-- and gives up at most four bytes of the limit, only so as not to stand in front of a continuation
-- byte.
pub utf8_cut-le :
    (bs : List ℕ) (limit : ℕ)
    → (utf8_cut bs limit ≤ limit)
      × (1 ≤ limit → 1 ≤ length bs → 1 ≤ utf8_cut bs limit)
      × (limit ≤ length bs → limit ≤ utf8_cut bs limit + 4)
      × (utf8_cut bs limit < limit
          → utf8_cut bs limit < length bs
          → is_continuation (get_elem? bs (utf8_cut bs limit)) ≡ false)
utf8_cut-le bs limit = elim (Bool-cases (leb (length bs) limit)) [
  | inl e ↦ unfold utf8_cut in rw e (ground arith)
  | inr e ↦ elim (Bool-cases (is_continuation (get_elem? bs (back_up bs 4 limit)))) [
    | inl f ↦ unfold utf8_cut in rw (e, f) (ground (arith, back_up-le bs 4 limit))
    | inr f ↦ elim (Bool-cases (ltb 0 (back_up bs 4 limit))) [
      | inl g ↦ unfold utf8_cut in rw (e, f, g) (ground (arith, back_up-le bs 4 limit))
      | inr g ↦ unfold utf8_cut in rw (e, f, g) (ground (arith, back_up-le bs 4 limit))
    ]
  ]
]

last_reset-append-some :
    (a b : Text) (j : ℕ) → last_reset b ≡ some j → last_reset (a ++ b) ≡ some (length a + j)
unfolding last_reset
last_reset-append-some [] b j h = rw h (ap (λ n. some n) (omega arith))
last_reset-append-some (c ∷ a) b j h =
    rw (last_reset-append-some a b j h) (ap (λ n. some n) (omega arith))

last_reset-append-none : (a b : Text) → last_reset b ≡ none → last_reset (a ++ b) ≡ last_reset a
unfolding last_reset
last_reset-append-none [] b h = h
last_reset-append-none (c ∷ a) b h = rw (last_reset-append-none a b h) refl

last_reset-lt : (a : Text) (i : ℕ) → last_reset a ≡ some i → i < length a
unfolding last_reset
last_reset-lt [] i h = cc
last_reset-lt (c ∷ a) i h = elim (Option-cases (last_reset a)) [
  | inl e ↦ ground (arith, e)
  | inr (j, e) ↦ ground (arith, e, last_reset-lt a j e)
]

drop-append : (a b : Text) (n k : ℕ) → k ≡ length a + n → drop k (a ++ b) ≡ drop n b
drop-append [] b n k h = ap (λ i. drop i b) (omega arith)
drop-append (c ∷ a) b n zero h = absurd (omega arith)
drop-append (c ∷ a) b n (suc k) h = drop-append a b n k (omega arith)

drop-append-le : (a b : Text) (k : ℕ) → k ≤ length a → drop k (a ++ b) ≡ drop k a ++ b
drop-append-le a b zero h = refl
drop-append-le [] b (suc k) h = absurd (omega arith)
drop-append-le (c ∷ a) b (suc k) h = drop-append-le a b k (omega arith)

last_chars-append : (n : ℕ) (u v : Text) → n ≤ length v → last_chars n (u ++ v) ≡ last_chars n v
unfolding last_chars
last_chars-append n u v h = drop-append u v _ _ (omega (arith, length-append u v))

last_chars-all : (n : ℕ) (x : Text) → length x ≤ n → last_chars n x ≡ x
unfolding last_chars
last_chars-all n x h = ap (λ k. drop k x) (let z : length x - n ≡ 0 = omega arith in z)

last_chars-twice : (n : ℕ) (x b : Text) → last_chars n (last_chars n x ++ b) ≡ last_chars n (x ++ b)
last_chars-twice n x b = elim (Bool-cases (leb (length x) n)) [
  | inl e ↦
      ap (λ y. last_chars n (y ++ b)) (last_chars-all n x (omega (arith, leb→le (length x) n e)))
  | inr e ↦ sym (
      ap (λ y. last_chars n (y ++ b)) (sym (take-append-drop (length x - n) x))
      ∙ ap (λ y. last_chars n y) (append_assoc (take (length x - n) x) _ b)
      ∙ unfold last_chars in
        last_chars-append n (take (length x - n) x) (drop (length x - n) x ++ b)
          (ground (arith, length-append (drop (length x - n) x) b, length-drop (length x - n) x)))
]

-- Text sent in two parts leaves the partial line that it leaves in one: no split hides a command
-- from the policy, which reads the partial line with the next text, up to the last 4096
-- characters.
pub advance_line-append :
    (pending a b : Text) → advance_line (advance_line pending a) b ≡ advance_line pending (a ++ b)
unfolding advance_line line_after
advance_line-append pending a b = elim (Option-cases (last_reset b)) [
  | inr (j, e) ↦
      rw (e, last_reset-append-some a b j e)
        (ap (λ t. last_chars 4096 t)
          (sym (drop-append a b (suc j) (suc (length a + j)) (omega arith))))
  | inl e ↦ elim (Option-cases (last_reset a)) [
    | inr (i, f) ↦
        rw (e, last_reset-append-none a b e, f)
          (last_chars-twice 4096 (drop (suc i) a) b
            ∙ ap (λ t. last_chars 4096 t)
                (sym (drop-append-le a b (suc i) (omega (arith, last_reset-lt a i f)))))
    | inl f ↦
        rw (e, last_reset-append-none a b e, f)
          (last_chars-twice 4096 (pending ++ a) b
            ∙ ap (λ t. last_chars 4096 t) (append_assoc pending a b))
  ]
]
