-- ===== src/Metrics/Escapes.antt =====
-- The escaping of a label value (`_escape_label_value` of src/relay_shell/metrics.py).
use relay_shell.Prelude.{
  append_assoc, ℕ, ◌≡◌, refl, false, [], ◌∷◌, ◌++◌, Option, none, some, Text, ◌==◌, if◌then◌else◌,
  Bool-cases, inl, inr, ap, ◌∙◌, sym, ==_iff,
}

-- `str.replace` of one character.
unfoldable pub replace_char : ℕ → Text → Text → Text
replace_char c by [] = []
replace_char c by (d ∷ s) = (if d == c then by else d ∷ []) ++ replace_char c by s

unfoldable pub escape_label_value : Text → Text
unfolding replace_char
escape_label_value value =
    replace_char 10 (92 ∷ 110 ∷ [])
      (replace_char 34 (92 ∷ 34 ∷ []) (replace_char 92 (92 ∷ 92 ∷ []) value))

-- A reader of the text format, up to the closing quote of the value.
unfoldable pub read_value : Text → Option (Text × Text)
read_value [] = none
read_value (c ∷ []) = if c == 34 then some ([], []) else none
read_value (c ∷ d ∷ s) =
    let plain = read_value (d ∷ s) in
    let escaped = read_value s in
    if c == 34
    then some ([], d ∷ s)
    else if c == 10
    then none
    else if c == 92
    then elim escaped [
      | none ↦ none
      | some (v, rest) ↦ some ((if d == 110 then 10 else d) ∷ v, rest)
    ]
    else elim plain [ none ↦ none | some (v, rest) ↦ some (c ∷ v, rest) ]

-- One character escaped.
unfoldable pub escaped_char : ℕ → Text
escaped_char c =
    if c == 92
    then 92 ∷ 92 ∷ []
    else if c == 34
    then 92 ∷ 34 ∷ []
    else if c == 10
    then 92 ∷ 110 ∷ []
    else c ∷ []

replace_char-append :
    (c : ℕ) (by s t : Text)
    → replace_char c by (s ++ t) ≡ replace_char c by s ++ replace_char c by t
unfolding replace_char
replace_char-append c by [] t = refl
replace_char-append c by (d ∷ s) t =
    ap (λ l. (if d == c then by else d ∷ []) ++ l) (replace_char-append c by s t)
    ∙ sym (append_assoc (if d == c then by else d ∷ []) (replace_char c by s) (replace_char c by t))

escape-cons :
    (c : ℕ) (s : Text) → escape_label_value (c ∷ s) ≡ escaped_char c ++ escape_label_value s
unfolding escape_label_value escaped_char replace_char
escape-cons c s = elim (Bool-cases (c == 92)) [
  | inl e ↦ let same : c ≡ 92 = (==_iff c 92).0 e in rw same refl
  | inr e ↦ elim (Bool-cases (c == 34)) [
    | inl f ↦ let same : c ≡ 34 = (==_iff c 34).0 f in rw same refl
    | inr f ↦ elim (Bool-cases (c == 10)) [
      | inl g ↦ let same : c ≡ 10 = (==_iff c 10).0 g in rw same refl
      | inr g ↦ rw (e, f, g) refl
    ]
  ]
]

read_value-plain :
    (c : ℕ) (s v rest : Text)
    → (c == 34) ≡ false
    → (c == 10) ≡ false
    → (c == 92) ≡ false
    → read_value s ≡ some (v, rest)
    → read_value (c ∷ s) ≡ some (c ∷ v, rest)
unfolding read_value
read_value-plain c [] v rest e f g h = cc
read_value-plain c (d ∷ s) v rest e f g h = rw (e, f, g, h) refl

read_value-pair :
    (d c : ℕ) (s v rest : Text)
    → (if d == 110 then 10 else d) ≡ c
    → read_value s ≡ some (v, rest)
    → read_value (92 ∷ d ∷ s) ≡ some (c ∷ v, rest)
unfolding read_value
read_value-pair d c s v rest e h = rw h (ap (λ x. some (x ∷ v, rest)) e)

read_value-escaped_char :
    (c : ℕ) (s v rest : Text)
    → read_value s ≡ some (v, rest)
    → read_value (escaped_char c ++ s) ≡ some (c ∷ v, rest)
unfolding escaped_char
read_value-escaped_char c s v rest h = elim (Bool-cases (c == 92)) [
  | inl e ↦ let same : c ≡ 92 = (==_iff c 92).0 e in rw same (read_value-pair 92 92 s v rest refl h)
  | inr e ↦ elim (Bool-cases (c == 34)) [
    | inl f ↦
        let same : c ≡ 34 = (==_iff c 34).0 f in rw same (read_value-pair 34 34 s v rest refl h)
    | inr f ↦ elim (Bool-cases (c == 10)) [
      | inl g ↦
          let same : c ≡ 10 = (==_iff c 10).0 g in rw same (read_value-pair 110 10 s v rest refl h)
      | inr g ↦ rw (e, f, g) (read_value-plain c s v rest f g e h)
    ]
  ]
]

-- A printed label value, with the closing quote and whatever follows, reads back as the value and
-- what follows: no value can end its own quotes or its line.
pub read_value-escape :
    (value rest : Text) → read_value (escape_label_value value ++ 34 ∷ rest) ≡ some (value, rest)
read_value-escape [] [] = unfold escape_label_value replace_char read_value in refl
read_value-escape [] (r ∷ rest) = unfold escape_label_value replace_char read_value in refl
read_value-escape (c ∷ value) rest =
    rw (escape-cons c value, append_assoc (escaped_char c) (escape_label_value value) (34 ∷ rest))
      (read_value-escaped_char c (escape_label_value value ++ 34 ∷ rest) value rest
        (read_value-escape value rest))
