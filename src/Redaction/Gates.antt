-- ===== src/Redaction/Gates.antt =====
-- The hints of `redact`: with a row for each built-in rule their table is never read past its end.
use relay_shell.Prelude.{
  ℕ, zero, suc, ◌≤◌, ◌≡◌, refl, ap, ◌∙◌, inl, inr, true, false, ◌&&◌, List, [], ◌∷◌, some, Text,
  arith, length, get_elem?, Bool-cases, Option-cases, ==_iff, and_parts, if◌then◌else◌,
}
use relay_shell.Notices.{lower}
use relay_shell.Redaction.{
  Rule, Tables, ◌>>=◌, has_hint, prefix_hints, is_ascii, is_builtin, apply_rule, apply_rules,
  sub_all, redact_whole, redact,
}

-- Every rule of the table at import has its row of hints.
abbrev pub IsCovered : Tables → Type 0
IsCovered t = length t.original_prefix ≤ length prefix_hints

get_elem?_of_le {ℓ κ} :
    {A : Type ℓ} {B : Type κ} (xs : List A) (ys : List B) (i : ℕ) (x : A)
    → length xs ≤ length ys
    → get_elem? xs i ≡ some x
    → (y : B) × (get_elem? ys i ≡ some y)
get_elem?_of_le [] ys i x few e = absurd cc
get_elem?_of_le (a ∷ xs) [] i x few e = absurd (omega (arith, few))
get_elem?_of_le (a ∷ xs) (b ∷ ys) zero x few e = (b, refl)
get_elem?_of_le (a ∷ xs) (b ∷ ys) (suc i) x few e = get_elem?_of_le xs ys i x (omega (arith, few)) e

builtin_entry :
    (original : List Rule) (i : ℕ) (r : Rule)
    → is_builtin original i r ≡ true
    → (o : Rule) × (get_elem? original i ≡ some o) × (r.pattern ≡ o.pattern)
unfolding is_builtin
builtin_entry original i r h = elim (Option-cases (get_elem? original i)) [
  | inl no_entry ↦ absurd (let z : false ≡ true = rw (no_entry, is_builtin) at h in cc)
  | inr (o, e) ↦ (o, e, (==_iff r.pattern o.pattern).0 (rw (e, is_builtin) at h))
]

-- A round gives a text: a built-in rule has its row of hints.
apply_rule_gives :
    (original : List Rule) (i : ℕ) (r : Rule) (s : Text)
    → length original ≤ length prefix_hints
    → (out : Text) × (apply_rule original i r s ≡ some out)
unfolding apply_rule
apply_rule_gives original i r s few = elim (Bool-cases (is_builtin original i r && is_ascii s)) [
  | inl gated ↦
      let (builtin, ascii) = and_parts (is_builtin original i r) (is_ascii s) gated in
      let (o, at, same) = builtin_entry original i r builtin in
      let (hints, row) = get_elem?_of_le original prefix_hints i o few at in
      (if has_hint hints (lower s) then r.sub s else s, rw (gated, row) refl)
  | inr open_gate ↦ (r.sub s, rw open_gate refl)
]

apply_rules_gives :
    (original : List Rule) (i : ℕ) (rs : List Rule) (s : Text)
    → length original ≤ length prefix_hints
    → (out : Text) × (apply_rules original i rs s ≡ some out)
unfolding apply_rules
apply_rules_gives original i [] s few = (s, refl)
apply_rules_gives original i (r ∷ rs) s few =
    let (next, step) = apply_rule_gives original i r s few in
    let (out, rest) = apply_rules_gives original (suc i) rs next few in
    (out, ap (λ o. o >>= apply_rules original (suc i) rs) step ∙ rest)

-- Whatever the patterns match, `redact` gives a text.
pub redact_total : (t : Tables) (s : Text) → IsCovered t → (r : Text) × (redact t s ≡ some r)
unfolding redact
redact_total t s covered =
    let start = t.url_token_userinfo (t.url_creds s) in
    let (out, prefixed) = apply_rules_gives t.original_prefix 0 t.prefix_patterns start covered in
    let bare = redact_whole t.whole_match (sub_all t.command_scoped out) in
    (if t.is_mysql_family bare then t.mysql_compact bare else bare, rw prefixed refl)
