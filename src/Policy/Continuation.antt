-- ===== src/Policy/Continuation.antt =====
-- Shell line continuations (`_strip_line_continuations` of src/relay_shell/policy.py, with the
-- scan of `LINE_CONTINUATION_PATTERN` of src/relay_shell/patterns.py written out).
use relay_shell.Prelude.{
  Bool-cases, ==_iff, ℕ, zero, suc, ◌++◌, ◌≡◌, refl, ap, Bool, false, ◌&&◌, ◌||◌, [], ◌∷◌, Option,
  some, none, Text, length, length-append, ◌==◌, Option-cases, inl, inr, sym, ◌∙◌, ◌≤◌,
  if◌then◌else◌, arith,
}

-- The rest behind the next single quote: the span `'[^']*'` after its first quote.
unfoldable pub single_span : Text → Option (Text × Text)
single_span [] = none
single_span (c ∷ s) =
    let rest = single_span s in
    if c == 39
    then some (c ∷ [], s)
    else elim rest [ none ↦ none | some (span, after) ↦ some (c ∷ span, after) ]

-- The span `"(?:\\.|[^"\\])*"` after its first quote. A `.` is no newline, so a span with a
-- continuation in it is none.
unfoldable pub double_span : Text → Option (Text × Text)
double_span [] = none
double_span (c ∷ []) = if c == 34 then some (c ∷ [], []) else none
double_span (c ∷ d ∷ s) =
    let plain = double_span (d ∷ s) in
    let escaped = double_span s in
    if c == 34
    then some (c ∷ [], d ∷ s)
    else if c == 92
    then (if d == 10
        then none
        else elim escaped [ none ↦ none | some (span, after) ↦ some (c ∷ d ∷ span, after) ])
    else elim plain [ none ↦ none | some (span, after) ↦ some (c ∷ span, after) ]

-- The last two alternatives, behind a backslash: a continuation goes, any other pair stays.
unfoldable pub after_return : (Text → Text) → Text → Text
after_return go [] = 92 ∷ 13 ∷ go []
after_return go (d ∷ s) = if d == 10 then go s else 92 ∷ 13 ∷ go (d ∷ s)

unfoldable pub after_backslash : (Text → Text) → Text → Text
unfolding after_return
after_backslash go [] = 92 ∷ []
after_backslash go (c ∷ s) =
    if c == 10 then go s else if c == 13 then after_return go s else 92 ∷ c ∷ go s

unfoldable pub keep_span : (Text → Text) → ℕ → Text → Option (Text × Text) → Text
keep_span go c s none = c ∷ go s
keep_span go c s (some (span, after)) = c ∷ (span ++ go after)

-- `LINE_CONTINUATION_PATTERN.sub`, one match a round.
unfoldable pub scan : ℕ → Text → Text
unfolding single_span double_span after_backslash keep_span
scan zero s = s
scan (suc fuel) [] = []
scan (suc fuel) (c ∷ s) =
    if c == 39
    then keep_span (λ t. scan fuel t) c s (single_span s)
    else if c == 34
    then keep_span (λ t. scan fuel t) c s (double_span s)
    else if c == 92
    then after_backslash (λ t. scan fuel t) s
    else c ∷ scan fuel s

-- `"\\\n" in text or "\\\r\n" in text`.
unfoldable pub starts_newline : Text → Bool
starts_newline [] = false
starts_newline (c ∷ []) = c == 10
starts_newline (c ∷ d ∷ s) = c == 10 || (c == 13 && d == 10)

unfoldable pub has_continuation : Text → Bool
unfolding starts_newline
has_continuation [] = false
has_continuation (c ∷ s) = (c == 92 && starts_newline s) || has_continuation s

unfoldable pub strip_line_continuations : Text → Text
unfolding scan has_continuation
strip_line_continuations text = if has_continuation text then scan (length text) text else text

-- A span is cut off the front of the text.
single_span-append : (s span after : Text) → single_span s ≡ some (span, after) → s ≡ span ++ after
unfolding single_span
single_span-append [] span after h = cc
single_span-append (c ∷ s) span after h = elim (Option-cases (single_span s)) [
  | inl e ↦ ground (arith, e)
  | inr (p, e) ↦ ground (arith, e, single_span-append s p.0 p.1)
]

double_span-append : (s span after : Text) → double_span s ≡ some (span, after) → s ≡ span ++ after
unfolding double_span
double_span-append [] span after h = cc
double_span-append (c ∷ []) span after h = ground arith
double_span-append (c ∷ d ∷ s) span after h = elim (Option-cases (double_span (d ∷ s))) [
  | inl e ↦ elim (Option-cases (double_span s)) [
    | inl f ↦ ground (arith, e, f)
    | inr (q, f) ↦ ground (arith, e, f, double_span-append s q.0 q.1)
  ]
  | inr (p, e) ↦ elim (Option-cases (double_span s)) [
    | inl f ↦ ground (arith, e, f, double_span-append (d ∷ s) p.0 p.1)
    | inr (q, f) ↦
        ground (arith, e, f, double_span-append (d ∷ s) p.0 p.1, double_span-append s q.0 q.1)
  ]
]

has_continuation-append :
    (s t : Text) → has_continuation (s ++ t) ≡ false → has_continuation t ≡ false
unfolding has_continuation
has_continuation-append [] t h = h
has_continuation-append (c ∷ s) t h = ground (arith, has_continuation-append s t)

keep_span_same :
    (go : Text → Text) (c : ℕ) (s : Text) (o : Option (Text × Text))
    → ((t : Text) → has_continuation t ≡ false → length t ≤ length s → go t ≡ t)
    → has_continuation s ≡ false
    → ((span after : Text) → o ≡ some (span, after) → s ≡ span ++ after)
    → keep_span go c s o ≡ c ∷ s
unfolding keep_span
keep_span_same go c s none same plain cut = ap (λ t. c ∷ t) (same s plain (omega arith))
keep_span_same go c s (some (span, after)) same plain cut =
    let e : s ≡ span ++ after = cut span after refl in
    let back : go after ≡ after =
      same after (has_continuation-append span after (rw e at plain))
        (omega (arith, ap length e, length-append span after)) in
    ap (λ t. c ∷ t) (ap (λ t. span ++ t) back ∙ sym e)

after_backslash_same :
    (go : Text → Text) (s : Text)
    → ((t : Text) → has_continuation t ≡ false → length t ≤ length s → go t ≡ t)
    → has_continuation s ≡ false
    → starts_newline s ≡ false
    → after_backslash go s ≡ 92 ∷ s
unfolding after_backslash starts_newline has_continuation
after_backslash_same go [] same plain h = refl
after_backslash_same go (c ∷ []) same plain h = ground (arith, same [] refl (omega arith))
after_backslash_same go (c ∷ d ∷ s) same plain h =
    ground (arith, same (d ∷ s) (ground arith) (omega arith))

has_continuation-tail :
    (c : ℕ) (s : Text) → has_continuation (c ∷ s) ≡ false → has_continuation s ≡ false
unfolding has_continuation
has_continuation-tail c s h = ground arith

starts_newline-behind : (s : Text) → has_continuation (92 ∷ s) ≡ false → starts_newline s ≡ false
unfolding has_continuation
starts_newline-behind s h = ground arith

scan-step :
    (fuel c : ℕ) (s : Text)
    → ((t : Text) → has_continuation t ≡ false → length t ≤ length s → scan fuel t ≡ t)
    → has_continuation (c ∷ s) ≡ false
    → scan (suc fuel) (c ∷ s) ≡ c ∷ s
scan-step fuel c s same plain = elim (Bool-cases (c == 39)) [
  | inl single ↦
      unfold scan in
      rw single
        (keep_span_same _ c s _ same (has_continuation-tail c s plain) (single_span-append s))
  | inr e ↦ elim (Bool-cases (c == 34)) [
    | inl double ↦
        unfold scan in
        rw (e, double)
          (keep_span_same _ c s _ same (has_continuation-tail c s plain) (double_span-append s))
    | inr f ↦ elim (Bool-cases (c == 92)) [
      | inl back ↦
          let here : c ≡ 92 = (==_iff c 92).0 back in
          unfold scan in
          rw (e, f, back)
            (after_backslash_same _ s same (has_continuation-tail c s plain)
                (starts_newline-behind s (rw here at plain))
              ∙ ap (λ n. n ∷ s) (sym here))
      | inr g ↦
          unfold scan in
          rw (e, f, g) (ap (λ t. c ∷ t) (same s (has_continuation-tail c s plain) (omega arith)))
    ]
  ]
]

-- The substring test in front of the scan saves time only: a text without a continuation passes
-- the scan unchanged.
pub scan-plain :
    (fuel : ℕ) (s : Text) → length s ≤ fuel → has_continuation s ≡ false → scan fuel s ≡ s
scan-plain zero s h plain = unfold scan in refl
scan-plain (suc fuel) [] h plain = unfold scan in refl
scan-plain (suc fuel) (c ∷ s) h plain =
    scan-step fuel c s (λ t p q. scan-plain fuel t (omega arith) p) plain
