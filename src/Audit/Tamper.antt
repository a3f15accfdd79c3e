-- ===== src/Audit/Tamper.antt =====
-- The last hash of a chain and the records before it (src/relay_shell/audit.py).
use mathlib.Core.Path.{ap₂}
use relay_shell.Prelude.{
  ◌≡◌, ◌≢◌, ◌⊎◌, refl, sym, ap, ◌∙◌, inl, inr, List, [], ◌∷◌, ◌++◌, Option, some, none, Text,
  text_eq, text_eq_iff, remove, arith, length, Bool-cases,
}
use relay_shell.Prelude.Int.{ℤ}
use relay_shell.Audit.{Doc, object, scalar, JsonLib, Link, key_chain, is_chained}
use relay_shell.Audit.Verify.{recomputed}
use relay_shell.Audit.Sound.{IsChain}

-- Two texts with one SHA-256.
pub record Collision (J : JsonLib) : Type 0 where
  pub first : Text
  pub second : Text
  pub differ : first ≢ second
  pub clash : J.sha256_hex first ≡ J.sha256_hex second

append_injective : (p q x y : Text) → length p ≡ length q → p ++ x ≡ q ++ y → (p ≡ q) × (x ≡ y)
append_injective [] [] x y h e = (refl, e)
append_injective [] (b ∷ q) x y h e = absurd (omega arith)
append_injective (a ∷ p) [] x y h e = absurd (omega arith)
append_injective (a ∷ p) (b ∷ q) x y h e = ground (arith, append_injective p q x y)

module _ (J : JsonLib) where
  -- What the hash of a record covers: its body without its own hash, as `json.dumps` prints it.
  pub body_of : Option Doc → Text
  body_of none = []
  body_of (some (scalar t)) = []
  body_of (some (object d)) = J.canonical (remove key_chain d)

  pub bodies : List (Option Doc) → List Text
  bodies [] = []
  bodies (d ∷ ds) = body_of d ∷ bodies ds

  -- The last record's hash; of no record, the anchor.
  pub last_hash : Text → List (Option Doc) → Text
  last_hash prev [] = prev
  last_hash prev (none ∷ ds) = prev
  last_hash prev (some doc ∷ ds) = elim (is_chained doc) [
    | none ↦ prev
    | some k ↦ last_hash k.chain ds
  ]

  -- The hash of a chained record, over the hash before it and its body.
  hash_of_record :
      (doc : Doc) (k : Link)
      → is_chained doc ≡ some k
      → recomputed J doc k ≡ k.chain
      → k.chain ≡ J.sha256_hex (k.prev ++ body_of (some doc))
  unfolding body_of recomputed is_chained
  hash_of_record (scalar t) k e r = cc
  hash_of_record (object d) k e r = sym r

  last_hash-linked :
      (prev : Text) (doc : Doc) (ds : List (Option Doc)) (k : Link)
      → is_chained doc ≡ some k
      → last_hash prev (some doc ∷ ds) ≡ last_hash k.chain ds
  unfolding last_hash
  last_hash-linked prev doc ds k e = rw (e, last_hash)

  module _ (fixed : (x : Text) → length (J.sha256_hex x) ≡ 64) where
    abbrev Same : Text → Text → List (Option Doc) → List (Option Doc) → Type 0
    Same p q ds es = Collision J ⊎ (p ≡ q) × (bodies ds ≡ bodies es)

    step-Same :
        (p q : Text) (c d : Doc) (k l : Link) (ds es : List (Option Doc))
        → length p ≡ length q
        → k.prev ≡ p
        → l.prev ≡ q
        → k.chain ≡ J.sha256_hex (k.prev ++ body_of (some c))
        → l.chain ≡ J.sha256_hex (l.prev ++ body_of (some d))
        → Same k.chain l.chain ds es
        → Same p q (some c ∷ ds) (some d ∷ es)
    unfolding bodies
    step-Same p q c d k l ds es len kp lq kc lc (inl clash) = inl clash
    step-Same p q c d k l ds es len kp lq kc lc (inr (chains, rest)) =
        elim (Bool-cases (text_eq (p ++ body_of (some c)) (q ++ body_of (some d)))) [
          | inl e ↦
              let both : (p ≡ q) × (body_of (some c) ≡ body_of (some d)) =
                append_injective p q _ _ len ((text_eq_iff _ _).0 e) in
              inr (both.0, ap₂ (λ x y. x ∷ y) both.1 rest)
          | inr e ↦ inl (record {
            first = p ++ body_of (some c);
            second = q ++ body_of (some d);
            differ = λ s.
                ground
                  (arith, (text_eq_iff (p ++ body_of (some c)) (q ++ body_of (some d))).1 s, e);
            clash = cc;
          })
        ]

    -- Two chains of as many records that end in the same hash have the same anchor and the same
    -- record bodies, in the same order, or else two different texts with one SHA-256 are at hand.
    pub last_hash-fixes :
        (p q : Text) (n m : ℤ) (ds es : List (Option Doc))
        → IsChain J p n ds
        → IsChain J q m es
        → length ds ≡ length es
        → length p ≡ length q
        → last_hash p ds ≡ last_hash q es
        → Collision J ⊎ (p ≡ q) × (bodies ds ≡ bodies es)
    last_hash-fixes p q n m [] [] cd ce len lp e =
        inr (unfold last_hash in e, unfold bodies in refl)
    last_hash-fixes p q n m [] (d ∷ es) cd ce len lp e = absurd (omega arith)
    last_hash-fixes p q n m (d ∷ ds) [] cd ce len lp e = absurd (omega arith)
    last_hash-fixes p q n m (none ∷ ds) (e ∷ es) cd ce len lp h = absurd cd
    last_hash-fixes p q n m (some d ∷ ds) (none ∷ es) cd ce len lp h = absurd ce
    last_hash-fixes p q n m (some d ∷ ds) (some e ∷ es) cd ce len lp h =
        let (k, dk, ks, kp, kr, kc) = cd in
        let (l, el, ls, lq, lr, lc) = ce in
        let k_hash : k.chain ≡ J.sha256_hex (k.prev ++ body_of (some d)) =
          hash_of_record d k dk kr in
        let l_hash : l.chain ≡ J.sha256_hex (l.prev ++ body_of (some e)) =
          hash_of_record e l el lr in
        step-Same p q d e k l ds es lp kp lq k_hash l_hash (
          last_hash-fixes k.chain l.chain _ _ ds es kc lc (omega arith)
            (ap length k_hash ∙ fixed _ ∙ sym (fixed _) ∙ sym (ap length l_hash))
            (sym (last_hash-linked p d ds k dk) ∙ h ∙ last_hash-linked q e es l el))
