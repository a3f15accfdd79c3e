-- ===== src/Probe/Dialed.antt =====
-- The host of a forward in the policy text is the host that the pool dials (`_forward_dhost` of
-- src/relay_shell/server.py and `_parse_forward_spec` of src/relay_shell/sshpool.py).
use relay_shell.Prelude.{
  ℕ, ◌≡◌, ◌⊎◌, inl, inr, refl, ap, subst, ◌∙◌, Bool, true, false, ◌||◌, ◌&&◌, ◌-◌, List, [], ◌∷◌,
  Option, none, some, Text, codes, if◌then◌else◌, leb, is_space, text_eq, strip, lstrip, rstrip,
  split_on, cons_head, partition, Bool-cases, arith, ℤ, parse_int,
}
use relay_shell.SshPool.Spec.{
  upper, spec, bad_prefix, with_ports, three_fields, dynamic_port, parse_kind, parse_forward_spec,
}
use relay_shell.Probe.Builders.{third_of, names_peer, forward_dhost}

split_on-partition :
    (c : ℕ) (s : Text)
    → (((partition c s).1 ≡ true)
        × (split_on c s ≡ (partition c s).0 ∷ split_on c (partition c s).2))
      ⊎ (((partition c s).1 ≡ false) × ((partition c s).2 ≡ []))
unfolding split_on partition cons_head
split_on-partition c [] = inr (refl, refl)
split_on-partition c (d ∷ s) = ground (arith, split_on-partition c s)

upper_char : ℕ → ℕ
upper_char c = if leb 97 c && leb c 122 then c - 32 else c

is_space-upper : (c : ℕ) → is_space (if leb 97 c && leb c 122 then c - 32 else c) ≡ is_space c
unfolding is_space
is_space-upper c = ground arith

lstrip-upper : (s : Text) → lstrip (upper s) ≡ upper (lstrip s)
unfolding lstrip upper
lstrip-upper [] = refl
lstrip-upper (c ∷ s) = elim (Bool-cases (is_space c)) [
  | inl gap ↦ rw (is_space-upper c, gap) (lstrip-upper s)
  | inr word ↦ rw (is_space-upper c, word) refl
]

is_nil-upper : (s : Text) → text_eq (upper s) [] ≡ text_eq s []
unfolding text_eq upper
is_nil-upper [] = refl
is_nil-upper (c ∷ s) = refl

rstrip-upper : (s : Text) → rstrip (upper s) ≡ upper (rstrip s)
unfolding rstrip upper
rstrip-upper [] = refl
rstrip-upper (c ∷ s) = elim (Bool-cases (is_space c && text_eq (rstrip s) [])) [
  | inl gone ↦ rw (is_space-upper c, rstrip-upper s, is_nil-upper (rstrip s), gone) refl
  | inr kept ↦ rw (is_space-upper c, rstrip-upper s, is_nil-upper (rstrip s), kept) refl
]

strip-upper : (s : Text) → strip (upper s) ≡ upper (strip s)
unfolding strip
strip-upper s = ap rstrip (lstrip-upper s) ∙ rstrip-upper (lstrip s)

with_ports-spec :
    (kind dhost k d : Text) (lport dport : Option ℤ) (l p : ℤ)
    → with_ports kind dhost lport dport ≡ spec k l d p
    → dhost ≡ d
unfolding with_ports
with_ports-spec kind dhost k d none dport l p e = cc
with_ports-spec kind dhost k d (some a) none l p e = cc
with_ports-spec kind dhost k d (some a) (some b) l p e = cc

three_fields-spec :
    (decimal : ℕ → Option ℕ) (kind k d : Text) (fields : List Text) (l p : ℤ)
    → three_fields decimal kind fields ≡ spec k l d p
    → (a : Text) × (b : Text) × (fields ≡ a ∷ d ∷ b ∷ [])
unfolding three_fields
three_fields-spec decimal kind k d [] l p e = cc
three_fields-spec decimal kind k d (a ∷ []) l p e = cc
three_fields-spec decimal kind k d (a ∷ h ∷ []) l p e = cc
three_fields-spec decimal kind k d (a ∷ h ∷ b ∷ []) l p e =
    let same : h ≡ d =
      with_ports-spec kind h k d (parse_int decimal a) (parse_int decimal b) l p e in
    (a, b, rw same refl)
three_fields-spec decimal kind k d (a ∷ h ∷ b ∷ c ∷ rest) l p e = cc

is_peer : Text → Bool
is_peer kind = text_eq kind (codes "L") || text_eq kind (codes "R")

dynamic_port-spec :
    (o : Option ℤ) (k d : Text) (l p : ℤ) → dynamic_port o ≡ spec k l d p → codes "D" ≡ k
unfolding dynamic_port
dynamic_port-spec none k d l p e = cc
dynamic_port-spec (some i) k d l p e = cc

parse_kind-spec :
    (decimal : ℕ → Option ℕ) (kind rest k d : Text) (l p : ℤ)
    → parse_kind decimal kind rest ≡ spec k l d p
    → (codes "D" ≡ k)
      ⊎ ((is_peer kind ≡ true) × ((a : Text) × (b : Text) × (split_on 58 rest ≡ a ∷ d ∷ b ∷ [])))
unfolding parse_kind is_peer
parse_kind-spec decimal kind rest k d l p e = elim (Bool-cases (is_peer kind)) [
  | inl peer ↦ inr (peer, three_fields-spec decimal kind k d (split_on 58 rest) l p (rw peer at e))
  | inr other ↦ elim (Bool-cases (text_eq kind (codes "D"))) [
    | inl dynamic ↦
        let on : dynamic_port (parse_int decimal rest) ≡ spec k l d p = rw (other, dynamic) at e in
        inl (dynamic_port-spec (parse_int decimal rest) k d l p on)
    | inr unknown ↦ let wrong : bad_prefix ≡ spec k l d p = rw (other, unknown) at e in cc
  ]
]

dhost_of :
    (s kind a d b : Text)
    → split_on 58 s ≡ kind ∷ a ∷ d ∷ b ∷ []
    → is_peer (upper (strip kind)) ≡ true
    → forward_dhost s ≡ d
unfolding forward_dhost names_peer third_of is_peer
dhost_of s kind a d b fields peer = rw (fields, peer) refl

lone_field : (a d b : Text) → split_on 58 [] ≡ a ∷ d ∷ b ∷ [] → ⊥
unfolding split_on
lone_field a d b e = cc

-- A forward that the pool accepts and that dials a host names that host to the policy: whatever the
-- specification spells its kind like, `_forward_dhost` gives the host that `_parse_forward_spec`
-- gives. The other forwards are dynamic.
pub forward_dhost-dialed :
    (decimal : ℕ → Option ℕ) (s k d : Text) (l p : ℤ)
    → parse_forward_spec decimal s ≡ spec k l d p
    → (codes "D" ≡ k) ⊎ (forward_dhost s ≡ d)
unfolding parse_forward_spec
forward_dhost-dialed decimal s k d l p e =
    let parts = partition 58 s in
    elim (parse_kind-spec decimal (strip (upper parts.0)) parts.2 k d l p e) [
      | inl dynamic ↦ inl dynamic
      | inr (peer, (a, b, fields)) ↦ inr (elim (split_on-partition 58 s) [
        | inl (found, split) ↦
            dhost_of s parts.0 a d b (split ∙ ap (λ t. parts.0 ∷ t) fields)
              (subst (λ t. is_peer t ≡ true) (strip-upper parts.0) peer)
        | inr (missing, empty) ↦
            absurd (lone_field a d b (subst (λ t. split_on 58 t ≡ a ∷ d ∷ b ∷ []) empty fields))
      ])
    ]
