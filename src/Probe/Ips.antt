-- ===== src/Probe/Ips.antt =====
-- The canonical addresses in a policy text (`_with_canonical_ips` of src/relay_shell/server.py).
use relay_shell.Prelude.{
  ℕ, ◌≡◌, ◌⊎◌, inl, inr, refl, sym, ap, subst, ◌∙◌, true, ◌||◌, List, [], ◌∷◌, ◌++◌, Option, none,
  some, Text, if◌then◌else◌, take, contains, starts_with, is_among, text_eq, text_eq_iff,
  text_eq_refl, text_eq_sound, append-nil, Bool-cases, arith,
}
use relay_shell.Probe.{
  Addresses, canonical_ips, add_ips, join_with, appended, and_ips, collect_ips, with_canonical_ips,
}

starts_with-append : (b t : Text) → starts_with b (b ++ t) ≡ true
unfolding starts_with
starts_with-append [] t = refl
starts_with-append (c ∷ b) t = ground (arith, starts_with-append b t)

starts_with-longer : (b s t : Text) → starts_with b s ≡ true → starts_with b (s ++ t) ≡ true
unfolding starts_with
starts_with-longer [] s t h = refl
starts_with-longer (c ∷ b) [] t h = cc
starts_with-longer (c ∷ b) (d ∷ s) t h = ground (arith, starts_with-longer b s t)

pub contains_nil : (s : Text) → contains [] s ≡ true
unfolding contains starts_with text_eq
contains_nil [] = refl
contains_nil (c ∷ s) = refl

pub contains-longer : (b s t : Text) → contains b s ≡ true → contains b (s ++ t) ≡ true
unfolding contains text_eq
contains-longer [] s t h = contains_nil (s ++ t)
contains-longer (c ∷ b) [] t h = cc
contains-longer (c ∷ b) (d ∷ s) t h =
    ground (arith, contains-longer (c ∷ b) s t, starts_with-longer (c ∷ b) (d ∷ s) t)

pub contains-middle : (a b t : Text) → contains b (a ++ (b ++ t)) ≡ true
unfolding contains
contains-middle [] [] t = contains_nil t
contains-middle [] (c ∷ b) t = rw (starts_with-append (c ∷ b) t) refl
contains-middle (d ∷ a) b t = rw (contains-middle a b t) (ground arith)

pub contains_self : (b t : Text) → contains b (b ++ t) ≡ true
contains_self b t = contains-middle [] b t

pub contains-after : (b a t : Text) → contains b t ≡ true → contains b (a ++ t) ≡ true
unfolding contains
contains-after b [] t h = h
contains-after b (d ∷ a) t h = rw (contains-after b a t h) (ground arith)

pub contains-cons : (b : Text) (c : ℕ) (t : Text) → contains b t ≡ true → contains b (c ∷ t) ≡ true
contains-cons b c t h = contains-after b (c ∷ []) t h

is_among-append :
    (x : Text) (xs ys : List Text) → is_among x (xs ++ ys) ≡ (is_among x xs || is_among x ys)
unfolding is_among
is_among-append x [] ys = refl
is_among-append x (y ∷ xs) ys = ground (arith, is_among-append x xs ys)

-- What `extra` is behind one address.
abbrev next_extra : Text → Text → Text → List Text → List Text
next_extra text tok ip extra =
    if text_eq ip tok || is_among ip extra || contains ip text then extra else extra ++ ip ∷ []

add_ips-keeps :
    (text tok x : Text) (ips extra : List Text)
    → is_among x extra ≡ true
    → is_among x (add_ips text tok ips extra) ≡ true
unfolding add_ips
add_ips-keeps text tok x [] extra h = h
add_ips-keeps text tok x (ip ∷ ips) extra h =
    add_ips-keeps text tok x ips (next_extra text tok ip extra)
      (ground (arith, is_among-append x extra (ip ∷ [])))

next_extra-finds :
    (text tok x : Text) (extra : List Text)
    → (x ≡ tok) ⊎ (contains x text ≡ true) ⊎ (is_among x (next_extra text tok x extra) ≡ true)
unfolding is_among
next_extra-finds text tok x extra =
    ground (arith, text_eq_iff x tok, text_eq_refl x, is_among-append x extra (x ∷ []))

-- A form is added, stands in the text, or is the token itself.
add_ips-finds :
    (text tok x : Text) (ips extra : List Text)
    → is_among x ips ≡ true
    → (x ≡ tok) ⊎ (contains x text ≡ true) ⊎ (is_among x (add_ips text tok ips extra) ≡ true)
unfolding add_ips is_among
add_ips-finds text tok x [] extra h = cc
add_ips-finds text tok x (ip ∷ ips) extra h = elim (Bool-cases (text_eq ip x)) [
  | inl same ↦
      let here : ip ≡ x = text_eq_sound ip x same in
      elim (next_extra-finds text tok x extra) [
        | inl self ↦ inl self
        | inr (inl old) ↦ inr (inl old)
        | inr (inr new) ↦
            inr (inr (add_ips-keeps text tok x ips (next_extra text tok ip extra) (rw here new)))
      ]
  | inr other ↦ add_ips-finds text tok x ips (next_extra text tok ip extra) (rw other at h)
]

module _ (A : Addresses) where
  and_ips-some :
      (text tok : Text) (extra found : List Text) (toks : List Text) (forms : Option (List Text))
      → collect_ips A text toks (and_ips A text tok forms extra) ≡ some found
      → (ips : List Text) × (forms ≡ some ips)
        × (collect_ips A text toks (some (add_ips text tok ips extra)) ≡ some found)
  unfolding and_ips collect_ips
  and_ips-some text tok extra found [] none e = cc
  and_ips-some text tok extra found (t ∷ toks) none e = cc
  and_ips-some text tok extra found toks (some ips) e = (ips, refl, e)

  -- A round of the loop that does not raise.
  collect_ips-some :
      (text tok : Text) (toks extra found : List Text)
      → collect_ips A text (tok ∷ toks) (some extra) ≡ some found
      → (ips : List Text) × (canonical_ips A tok ≡ some ips)
        × (collect_ips A text toks (some (add_ips text tok ips extra)) ≡ some found)
  unfolding collect_ips
  collect_ips-some text tok toks extra found e =
      and_ips-some text tok extra found toks (canonical_ips A tok) e

  collect_ips-keeps :
      (text x : Text) (toks extra found : List Text)
      → collect_ips A text toks (some extra) ≡ some found
      → is_among x extra ≡ true
      → is_among x found ≡ true
  unfolding collect_ips
  collect_ips-keeps text x [] extra found e h = let same : extra ≡ found = cc in rw same at h
  collect_ips-keeps text x (tok ∷ toks) extra found e h =
      let (ips, good, later) = collect_ips-some text tok toks extra found e in
      collect_ips-keeps text x toks (add_ips text tok ips extra) found later
        (add_ips-keeps text tok x ips extra h)

  collect_ips-finds :
      (text tok x : Text) (ips toks extra found : List Text)
      → collect_ips A text toks (some extra) ≡ some found
      → is_among tok toks ≡ true
      → canonical_ips A tok ≡ some ips
      → is_among x ips ≡ true
      → (x ≡ tok) ⊎ (contains x text ≡ true) ⊎ (is_among x found ≡ true)
  unfolding is_among
  collect_ips-finds text tok x ips [] extra found e m c h = cc
  collect_ips-finds text tok x ips (t ∷ toks) extra found e m c h =
      let (forms, good, later) = collect_ips-some text t toks extra found e in
      elim (Bool-cases (text_eq t tok)) [
        | inl same ↦
            let here : t ≡ tok = text_eq_sound t tok same in
            let all : forms ≡ ips =
              let eq : some forms ≡ some ips = sym good ∙ ap (canonical_ips A) here ∙ c in cc in
            elim (add_ips-finds text t x forms extra (rw all h)) [
              | inl self ↦ inl (self ∙ here)
              | inr (inl old) ↦ inr (inl old)
              | inr (inr new) ↦
                  inr (
                    inr
                      (collect_ips-keeps text x toks (add_ips text t forms extra) found later new))
            ]
        | inr other ↦
            collect_ips-finds text tok x ips toks (add_ips text t forms extra) found later
              (rw other at m) c h
      ]

pub join_with-contains :
    (sep : ℕ) (x : Text) (ts : List Text)
    → is_among x ts ≡ true
    → contains x (join_with sep ts) ≡ true
unfolding join_with is_among
join_with-contains sep x [] h = cc
join_with-contains sep x (t ∷ []) h =
    let same : t ≡ x = text_eq_sound t x (ground arith) in
    rw same (subst (λ s. contains x s ≡ true) (append-nil x) (contains_self x []))
join_with-contains sep x (t ∷ u ∷ ts) h = elim (Bool-cases (text_eq t x)) [
  | inl same ↦
      let here : t ≡ x = text_eq_sound t x same in
      rw here (contains_self x (sep ∷ join_with sep (u ∷ ts)))
  | inr other ↦
      let rest : contains x (join_with sep (u ∷ ts)) ≡ true =
        join_with-contains sep x (u ∷ ts) (rw other at h) in
      contains-after x t (sep ∷ join_with sep (u ∷ ts)) (contains-cons x sep _ rest)
]

-- What the loop comes to, as the policy text.
appended-some :
    (text probe : Text) (o : Option (List Text))
    → appended text o ≡ some probe
    → (extra : List Text) × (o ≡ some extra)
      × (rest : Text) × (probe ≡ text ++ rest)
      × ((x : Text) → is_among x extra ≡ true → contains x probe ≡ true)
unfolding appended is_among
appended-some text probe none e = cc
appended-some text probe (some []) e =
    let same : text ≡ probe = cc in ([], refl, [], rw (append-nil text) (sym same), λ x h. cc)
appended-some text probe (some (ip ∷ ips)) e =
    let same : text ++ 32 ∷ join_with 32 (ip ∷ ips) ≡ probe = cc in
    (
      ip ∷ ips,
      refl,
      32 ∷ join_with 32 (ip ∷ ips),
      sym same,
      λ x h.
          let tail : contains x (32 ∷ join_with 32 (ip ∷ ips)) ≡ true =
            contains-cons x 32 _ (join_with-contains 32 x (ip ∷ ips) h) in
          subst (λ s. contains x s ≡ true) same (contains-after x text _ tail),
    )

pub with_canonical_ips-prefix :
    (A : Addresses) (text probe : Text) (toks : List Text)
    → with_canonical_ips A text toks ≡ some probe
    → (rest : Text) × (probe ≡ text ++ rest)
unfolding with_canonical_ips
with_canonical_ips-prefix A text probe toks e =
    let (extra, ran, rest, front, holds) = appended-some text probe _ e in (rest, front)

pub contains_whole : (t : Text) → contains t t ≡ true
contains_whole t = subst (λ s. contains t s ≡ true) (append-nil t) (contains_self t [])

-- A policy text begins with the text it is made from, and holds every canonical form of an address
-- that one of the first 128 host tokens spells, unless the token is that form already.
pub with_canonical_ips-contains :
    (A : Addresses) (text probe tok ip : Text) (toks ips : List Text)
    → with_canonical_ips A text toks ≡ some probe
    → is_among tok (take 128 toks) ≡ true
    → canonical_ips A tok ≡ some ips
    → is_among ip ips ≡ true
    → ((rest : Text) × (probe ≡ text ++ rest)) × ((ip ≡ tok) ⊎ (contains ip probe ≡ true))
unfolding with_canonical_ips
with_canonical_ips-contains A text probe tok ip toks ips e m c h =
    let (extra, ran, rest, front, holds) = appended-some text probe _ e in
    (
      (rest, front),
      elim (collect_ips-finds A text tok ip ips (take 128 toks) [] extra ran m c h) [
        | inl self ↦ inl self
        | inr (inl old) ↦ inr (rw front (contains-longer ip text rest old))
        | inr (inr new) ↦ inr (holds ip new)
      ],
    )
