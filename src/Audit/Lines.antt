-- ===== src/Audit/Lines.antt =====
-- The verifier at one line of the file (src/relay_shell/audit.py).
use relay_shell.Prelude.{
  ℕ, ◌+◌, ◌≡◌, refl, ◌∙◌, inl, inr, ◌⊎◌, true, false, [], Option, some, none, Text, text_eq,
  text_eq_iff, arith, Bool-cases, Option-cases,
}
use relay_shell.Prelude.Int.{int_suc, int_eq_iff}
use relay_shell.Audit.{Doc, JsonLib, Link, is_chained}
use relay_shell.Audit.Verify.{
  Walk, Progress, more, stop, ChainResult, check_line, check_link, begin_at, recomputed, Reason,
  invalid_json, missing_fields,
}

module _ (J : JsonLib) where
  abbrev pub link_of_doc : Option Doc → Option Link
  link_of_doc none = none
  link_of_doc (some doc) = is_chained doc

  -- What one accepted link gives.
  pub check_link-more :
      (w v : Walk) (lineno : ℕ) (doc : Doc) (k : Link)
      → check_link J w lineno doc k ≡ more v
      → (k.seq ≡ (begin_at w k).expected_seq)
        × (k.prev ≡ (begin_at w k).expected_prev)
        × (recomputed J doc k ≡ k.chain)
        × (v.expected_prev ≡ k.chain)
        × (v.expected_seq ≡ int_suc k.seq)
        × (v.records ≡ w.records + 1)
        × (v.start ≡ (begin_at w k).start)
  unfolding check_link
  check_link-more w v lineno doc k h = ground (
    arith,
    int_eq_iff k.seq (begin_at w k).expected_seq,
    text_eq_iff k.prev (begin_at w k).expected_prev,
    text_eq_iff (recomputed J doc k) k.chain,
  )

  check_link-stop :
      (w : Walk) (lineno : ℕ) (doc : Doc) (k : Link) (r : ChainResult)
      → check_link J w lineno doc k ≡ stop r
      → r.passed ≡ false
  unfolding check_link
  check_link-stop w lineno doc k r h = ground arith

  -- What one line can do to a walk that has started.
  pub data LineCase (w : Walk) (lineno : ℕ) (raw : Text) : Type 0 where
    blank :
        text_eq (J.strip raw) [] ≡ true → check_line J w lineno raw ≡ more w → LineCase w lineno raw
    linked :
        (doc : Doc) (k : Link) (v : Walk)
        → text_eq (J.strip raw) [] ≡ false
        → J.loads (J.strip raw) ≡ some doc
        → is_chained doc ≡ some k
        → check_link J w lineno doc k ≡ more v
        → check_line J w lineno raw ≡ more v
        → LineCase w lineno raw
    skipped :
        text_eq (J.strip raw) [] ≡ false
        → link_of_doc (J.loads (J.strip raw)) ≡ none
        → w.start ≡ none
        → check_line J w lineno raw ≡ more w
        → LineCase w lineno raw
    stops :
        (r : ChainResult)
        → r.passed ≡ false
        → check_line J w lineno raw ≡ stop r
        → LineCase w lineno raw

  Progress-cases : (p : Progress) → ((v : Walk) × (p ≡ more v)) ⊎ ((r : ChainResult) × (p ≡ stop r))
  Progress-cases (more v) = inl (v, refl)
  Progress-cases (stop r) = inr (r, refl)

  unlinked_case :
      (w : Walk) (lineno : ℕ) (raw : Text) (o : Option Doc)
      → text_eq (J.strip raw) [] ≡ false
      → J.loads (J.strip raw) ≡ o
      → link_of_doc o ≡ none
      → LineCase w lineno raw
  unfolding check_line
  unlinked_case w lineno raw o full parsed none_linked = elim (Option-cases w.start) [
    | inl e ↦ skipped full (rw parsed none_linked) e (unlinked_skips o full parsed none_linked e)
    | inr (s, e) ↦
        stops
          (record {
            passed = false;
            records = w.records;
            start = w.start;
            broken_at = some lineno;
            reason = why o;
            anchored = false;
          })
          refl (unlinked_stops o s full parsed none_linked e)
  ]
    where
      why : Option Doc → Reason
      why none = invalid_json
      why (some d) = missing_fields

      unlinked_skips :
          (o : Option Doc)
          → text_eq (J.strip raw) [] ≡ false
          → J.loads (J.strip raw) ≡ o
          → link_of_doc o ≡ none
          → w.start ≡ none
          → check_line J w lineno raw ≡ more w
      unlinked_skips none f p l e = ground (arith, f, p, l, e)
      unlinked_skips (some d) f p l e = ground (arith, f, p, l, e)

      unlinked_stops :
          (o : Option Doc) (s : Link)
          → text_eq (J.strip raw) [] ≡ false
          → J.loads (J.strip raw) ≡ o
          → link_of_doc o ≡ none
          → w.start ≡ some s
          → check_line J w lineno raw
            ≡ stop (record {
              passed = false;
              records = w.records;
              start = w.start;
              broken_at = some lineno;
              reason = why o;
              anchored = false;
            })
      unlinked_stops none s f p l e = ground (arith, f, p, l, e)
      unlinked_stops (some d) s f p l e = ground (arith, f, p, l, e)

  linked_case :
      (w : Walk) (lineno : ℕ) (raw : Text) (doc : Doc) (k : Link)
      → text_eq (J.strip raw) [] ≡ false
      → J.loads (J.strip raw) ≡ some doc
      → is_chained doc ≡ some k
      → LineCase w lineno raw
  unfolding check_line
  linked_case w lineno raw doc k full parsed at_k =
      let goes : check_line J w lineno raw ≡ check_link J w lineno doc k =
        ground (arith, full, parsed, at_k) in
      elim (Progress-cases (check_link J w lineno doc k)) [
        | inl (v, e) ↦ linked doc k v full parsed at_k e (goes ∙ e)
        | inr (r, e) ↦ stops r (check_link-stop w lineno doc k r e) (goes ∙ e)
      ]

  pub line_case : (w : Walk) (lineno : ℕ) (raw : Text) → LineCase w lineno raw
  line_case w lineno raw = elim (Bool-cases (text_eq (J.strip raw) [])) [
    | inl e ↦ blank e (unfold check_line in rw e)
    | inr full ↦ elim (Option-cases (J.loads (J.strip raw))) [
      | inl e ↦ unlinked_case w lineno raw none full e refl
      | inr (doc, e) ↦ elim (Option-cases (is_chained doc)) [
        | inl n ↦ unlinked_case w lineno raw (some doc) full e n
        | inr (k, l) ↦ linked_case w lineno raw doc k full e l
      ]
    ]
  ]
