-- ===== src/Audit/Sound.antt =====
-- The chained region of a file that passes the verifier (src/relay_shell/audit.py).
use mathlib.Core.Path.{subst₂}
use relay_shell.Prelude.{
  ℕ, ◌+◌, ◌≡◌, refl, sym, ap, ◌∙◌, true, false, List, [], ◌∷◌, Option, some, none, Text, text_eq,
  arith, length, if◌then◌else◌,
}
use relay_shell.Prelude.Int.{ℤ, int_suc}
use relay_shell.Audit.{Doc, JsonLib, Link, is_chained}
use relay_shell.Audit.Lines.{link_of_doc, check_link-more, blank, linked, skipped, stops, line_case}
use relay_shell.Audit.Verify.{
  Walk, more, stop, ChainResult, check_line, check_link, walk_lines, finish, verify_chain, begin_at,
  recomputed,
}

module _ (J : JsonLib) where
  -- The parsed lines that are not blank.
  unfoldable pub docs : List Text → List (Option Doc)
  docs [] = []
  docs (raw ∷ rest) =
      if text_eq (J.strip raw) [] then docs rest else J.loads (J.strip raw) ∷ docs rest

  -- From the first chained record on.
  unfoldable pub region : List (Option Doc) → List (Option Doc)
  region [] = []
  region (d ∷ ds) = elim (link_of_doc J d) [ none ↦ region ds | some _ ↦ d ∷ ds ]

  -- Every entry is a record with the next number, the previous hash, and its own hash right.
  abbrev pub IsChain : Text → ℤ → List (Option Doc) → Type 0
  IsChain prev n [] = Unit
  IsChain prev n (none ∷ ds) = ⊥
  IsChain prev n (some doc ∷ ds) =
      (k : Link) × (is_chained doc ≡ some k)
      × (k.seq ≡ n)
      × (k.prev ≡ prev)
      × (recomputed J doc k ≡ k.chain)
      × IsChain k.chain (int_suc n) ds

  begin_at-some : (w : Walk) (s k : Link) → w.start ≡ some s → begin_at w k ≡ w
  unfolding begin_at
  begin_at-some w s k h = ground arith

  record Covers (w : Walk) (ds : List (Option Doc)) (r : ChainResult) : Type 0 where
    chain : IsChain w.expected_prev w.expected_seq ds
    count : r.records ≡ w.records + length ds

  -- The walk from a line that checks to the lines behind it.
  link-Covers :
      (w v : Walk) (s : Link) (lineno : ℕ) (doc : Doc) (k : Link) (ds : List (Option Doc))
      (r : ChainResult)
      → w.start ≡ some s
      → is_chained doc ≡ some k
      → check_link J w lineno doc k ≡ more v
      → Covers v ds r
      → Covers w (some doc ∷ ds) r
  link-Covers w v s lineno doc k ds r from at_k step c =
      let (es, ep, rc, vp, vs, vr, _) = check_link-more J w v lineno doc k step in
      let same : begin_at w k ≡ w = begin_at-some w s k from in
      record {
        chain = (
          k,
          at_k,
          (rw same at es),
          (rw same at ep),
          rc,
          subst₂ (λ p n. IsChain p n ds) vp (vs ∙ ap int_suc (rw same at es)) c.chain,
        );
        count = omega (arith, c.count);
      }

  docs-blank :
      (raw : Text) (rest : List Text)
      → text_eq (J.strip raw) [] ≡ true
      → docs (raw ∷ rest) ≡ docs rest
  unfolding docs
  docs-blank raw rest e = rw e

  docs-full :
      (raw : Text) (rest : List Text)
      → text_eq (J.strip raw) [] ≡ false
      → docs (raw ∷ rest) ≡ J.loads (J.strip raw) ∷ docs rest
  unfolding docs
  docs-full raw rest e = rw e

  module _ (w : Walk) (lineno : ℕ) (raw : Text) (rest : List Text) where
    walk_lines-more :
        (v : Walk)
        → check_line J w lineno raw ≡ more v
        → walk_lines J w lineno (raw ∷ rest) ≡ walk_lines J v (lineno + 1) rest
    unfolding walk_lines
    walk_lines-more v e = rw (e, walk_lines)

    walk_lines-stop :
        (r : ChainResult)
        → check_line J w lineno raw ≡ stop r
        → walk_lines J w lineno (raw ∷ rest) ≡ r
    unfolding walk_lines
    walk_lines-stop r e = rw (e, walk_lines)

  still :
      (w v : Walk) (s : Link) (lineno : ℕ) (doc : Doc) (k : Link)
      → w.start ≡ some s
      → check_link J w lineno doc k ≡ more v
      → v.start ≡ some s
  still w v s lineno doc k from link =
      let (es, ep, rc, vp, vs, vr, vt) = check_link-more J w v lineno doc k link in
      vt ∙ (ap (λ (u : Walk). u.start) (begin_at-some w s k from) ∙ from)

  begin_at-none :
      (w : Walk) (k : Link)
      → w.start ≡ none
      → begin_at w k ≡ record w { start = some k; expected_seq = k.seq; expected_prev = k.prev }
  unfolding begin_at
  begin_at-none w k h = ground arith

  starts :
      (w v : Walk) (lineno : ℕ) (doc : Doc) (k : Link)
      → w.start ≡ none
      → check_link J w lineno doc k ≡ more v
      → v.start ≡ some k
  starts w v lineno doc k from link =
      let (es, ep, rc, vp, vs, vr, vt) = check_link-more J w v lineno doc k link in
      vt ∙ ap (λ (u : Walk). u.start) (begin_at-none w k from)

  region-linked :
      (d : Option Doc) (k : Link) (ds : List (Option Doc))
      → link_of_doc J d ≡ some k
      → region (d ∷ ds) ≡ d ∷ ds
  unfolding region
  region-linked d k ds e = rw (e, region)

  region-skipped :
      (d : Option Doc) (ds : List (Option Doc))
      → link_of_doc J d ≡ none
      → region (d ∷ ds) ≡ region ds
  unfolding region
  region-skipped d ds e = rw (e, region)

  refused {ℓ} : {A : Type ℓ} (r q : ChainResult) → q ≡ r → q.passed ≡ true → r.passed ≡ false → A
  refused r q e p n =
      absurd (let bad : true ≡ false = sym p ∙ (ap (λ (c : ChainResult). c.passed) e ∙ n) in cc)

  walk-Covers :
      (w : Walk) (s : Link) (lineno : ℕ) (lines : List Text)
      → w.start ≡ some s
      → (walk_lines J w lineno lines).passed ≡ true
      → Covers w (docs lines) (walk_lines J w lineno lines)
  walk-Covers w s lineno [] from passed = record {
    chain = unfold docs in tt;
    count = unfold docs walk_lines finish in ground (arith, from);
  }
  walk-Covers w s lineno (raw ∷ rest) from passed = elim (line_case J w lineno raw) [
    | blank e step ↦
        rw (docs-blank raw rest e, walk_lines-more w lineno raw rest w step)
          (walk-Covers w s (lineno + 1) rest from
            (rw (walk_lines-more w lineno raw rest w step) at passed))
    | linked doc k v full parsed at_k link step ↦
        rw (docs-full raw rest full, parsed, walk_lines-more w lineno raw rest v step)
          (link-Covers w v s lineno doc k (docs rest) _ from at_k link (
            walk-Covers v s (lineno + 1) rest (still w v s lineno doc k from link)
              (rw (walk_lines-more w lineno raw rest v step) at passed)))
    | skipped full l e step ↦ absurd (let bad : none ≡ some s = sym e ∙ from in cc)
    | stops r bad step ↦ refused r _ (walk_lines-stop w lineno raw rest r step) passed bad
  ]

  -- The file from its first chained record on: that record sets the number and the anchor.
  abbrev pub IsWhole : List (Option Doc) → Type 0
  IsWhole [] = Unit
  IsWhole (d ∷ ds) = (k : Link) × (link_of_doc J d ≡ some k) × IsChain k.prev k.seq (d ∷ ds)

  record Sound (ds : List (Option Doc)) (r : ChainResult) : Type 0 where
    whole : IsWhole ds
    total : r.records ≡ length ds

  opened :
      (w v : Walk) (lineno : ℕ) (doc : Doc) (k : Link) (rest : List Text) {r : ChainResult}
      → w.start ≡ none
      → w.records ≡ 0
      → is_chained doc ≡ some k
      → check_link J w lineno doc k ≡ more v
      → Covers v (docs rest) r
      → Sound (some doc ∷ docs rest) r
  opened w v lineno doc k rest from zeroed at_k link c =
      let (es, ep, rc, vp, vs, vr, vt) = check_link-more J w v lineno doc k link in
      record {
        whole = (
          k,
          at_k,
          (k, at_k, refl, refl, rc, subst₂ (λ p n. IsChain p n (docs rest)) vp vs c.chain),
        );
        total = omega (arith, c.count);
      }

  walk-Sound :
      (w : Walk) (lineno : ℕ) (lines : List Text)
      → w.start ≡ none
      → w.records ≡ 0
      → (walk_lines J w lineno lines).passed ≡ true
      → Sound (region (docs lines)) (walk_lines J w lineno lines)
  walk-Sound w lineno [] from zeroed passed = record {
    whole = unfold docs region in tt;
    total = unfold docs region walk_lines finish in ground (arith, from);
  }
  walk-Sound w lineno (raw ∷ rest) from zeroed passed = elim (line_case J w lineno raw) [
    | blank e step ↦
        rw (docs-blank raw rest e, walk_lines-more w lineno raw rest w step)
          (walk-Sound w (lineno + 1) rest from zeroed
            (rw (walk_lines-more w lineno raw rest w step) at passed))
    | linked doc k v full parsed at_k link step ↦
        rw
          (
            docs-full raw rest full,
            parsed,
            walk_lines-more w lineno raw rest v step,
            region-linked (some doc) k (docs rest) at_k,
          )
          (opened w v lineno doc k rest from zeroed at_k link (
            walk-Covers v k (lineno + 1) rest (starts w v lineno doc k from link)
              (rw (walk_lines-more w lineno raw rest v step) at passed)))
    | skipped full l e step ↦
        rw
          (
            docs-full raw rest full,
            region-skipped (J.loads (J.strip raw)) (docs rest) l,
            walk_lines-more w lineno raw rest w step,
          )
          (walk-Sound w (lineno + 1) rest from zeroed
            (rw (walk_lines-more w lineno raw rest w step) at passed))
    | stops r bad step ↦ refused r _ (walk_lines-stop w lineno raw rest r step) passed bad
  ]

  -- A verification that passes means: from the first chained record to the end of the file every
  -- line that is not blank is a chained record, numbered on by one, naming the hash of the record
  -- before, and with the hash of its own contents; and `records` counts exactly these.
  pub verify_chain-IsWhole :
      (lines : List Text)
      → (verify_chain J lines).passed ≡ true
      → IsWhole (region (docs lines))
        × ((verify_chain J lines).records ≡ length (region (docs lines)))
  unfolding verify_chain
  verify_chain-IsWhole lines passed =
      let s : Sound (region (docs lines)) (verify_chain J lines) =
        walk-Sound _ 1 lines refl refl passed in
      (s.whole, s.total)
