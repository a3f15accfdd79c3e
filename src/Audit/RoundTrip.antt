-- ===== src/Audit/RoundTrip.antt =====
-- The chained writer against the verifier, record by record (src/relay_shell/audit.py).
use mathlib.Core.List.{append-nil, append_assoc}
use relay_shell.Prelude.{
  ℕ, ◌+◌, ◌≡◌, ◌≢◌, ◌⊎◌, refl, sym, ap, ◌∙◌, true, false, List, [], ◌∷◌, ◌++◌, some, none, Text,
  text_eq, text_eq_iff, Dict, put, remove, has_key, get-put, has_key-put, remove-put_new, All,
  arith, length, Option-cases,
}
use relay_shell.Prelude.Int.{pos, int_suc, int_eq, int_eq_iff}
use relay_shell.Audit.{
  Value, int, text, Doc, object, JsonLib, Link, key_seq, key_prev, key_chain, genesis, is_chained,
  chain_value, Logger, emit, emit_all,
}
use relay_shell.Audit.Verify.{
  Walk, more, check_line, check_link, walk_lines, begin_at, is_start, recomputed, wrong_seq, broken,
}

-- A record as the callers build it has no `chain` field yet.
abbrev pub IsPlain : Dict Value → Type 0
IsPlain e = has_key key_chain e ≡ false

abbrev pub advanced : Walk → Link → Walk
advanced v k = record v {
  records = v.records + 1;
  expected_prev = k.chain;
  expected_seq = int_suc v.expected_seq;
}

module _ (J : JsonLib) (w : Walk) (lineno : ℕ) (doc : Doc) (k : Link) where
  check_link-passes :
      (begin_at w k).expected_seq ≡ k.seq
      → (begin_at w k).expected_prev ≡ k.prev
      → recomputed J doc k ≡ k.chain
      → (is_start w ≡ true → k.seq ≡ pos 0 → k.prev ≡ genesis)
      → check_link J w lineno doc k ≡ more (advanced (begin_at w k) k)
  unfolding check_link
  check_link-passes es ep rc anchor = ground (
    arith,
    int_eq_iff k.seq (pos 0),
    text_eq_iff k.prev genesis,
    int_eq_iff k.seq (begin_at w k).expected_seq,
    text_eq_iff k.prev (begin_at w k).expected_prev,
    text_eq_iff (recomputed J doc k) k.chain,
    anchor,
  )

  pub check_line-doc :
      (raw : Text)
      → J.strip raw ≢ []
      → J.loads (J.strip raw) ≡ some doc
      → is_chained doc ≡ some k
      → check_line J w lineno raw ≡ check_link J w lineno doc k
  unfolding check_line
  check_line-doc raw full parsed linked =
      ground (arith, text_eq_iff (J.strip raw) [], parsed, linked)

module _ (J : JsonLib) (l : Logger) (entry : Dict Value) where
  abbrev pub chained_body : Dict Value
  chained_body = put key_prev (text l.last_chain) (put key_seq (int l.next_seq) entry)

  abbrev pub new_chain : Text
  new_chain = chain_value J l.last_chain chained_body

  abbrev pub full_record : Dict Value
  full_record = put key_chain (text new_chain) chained_body

  abbrev pub new_link : Link
  new_link = record { seq = l.next_seq; prev = l.last_chain; chain = new_chain }

  pub is_chained-full_record : is_chained (object full_record) ≡ some new_link
  unfolding is_chained text_eq
  is_chained-full_record = simp get-put

  body_back : IsPlain entry → remove key_chain full_record ≡ chained_body
  unfolding text_eq
  body_back plain = remove-put_new key_chain _ chained_body (simp has_key-put plain)

  -- The verifier passes the line just written, if it expects it.
  pub check_line-emitted :
      (w : Walk) (lineno : ℕ)
      → IsPlain entry
      → (begin_at w new_link).expected_seq ≡ l.next_seq
      → (begin_at w new_link).expected_prev ≡ l.last_chain
      → (is_start w ≡ true → l.next_seq ≡ pos 0 → l.last_chain ≡ genesis)
      → check_line J w lineno (J.formatted full_record)
        ≡ more (advanced (begin_at w new_link) new_link)
  check_line-emitted w lineno plain es ep anchor =
      check_line-doc J w lineno (object full_record) new_link (J.formatted full_record)
        (J.strip_nonblank full_record) (J.loads_formatted full_record) is_chained-full_record
      ∙ check_link-passes J w lineno (object full_record) new_link es ep
          (unfold recomputed in rw (body_back plain)) anchor

started_cases : (w : Walk) → (w.start ≡ none) ⊎ ((k : Link) × (w.start ≡ some k))
started_cases w = Option-cases w.start

pub begin_at-started : (w : Walk) (k : Link) → is_start w ≡ false → begin_at w k ≡ w
unfolding begin_at is_start
begin_at-started w k h = ground arith

-- A number that is not the expected one stops the walk.
pub check_link-gap :
    (J : JsonLib) (w : Walk) (lineno : ℕ) (doc : Doc) (k : Link)
    → is_start w ≡ false
    → int_eq k.seq w.expected_seq ≡ false
    → check_link J w lineno doc k ≡ broken w lineno wrong_seq
unfolding check_link
check_link-gap J w lineno doc k started gap =
    ground (arith, begin_at-started w k started, started, gap)

-- The walk expects exactly what the writer writes next.
pub record Matches (w : Walk) (l : Logger) : Type 0 where
  pub seq : w.expected_seq ≡ l.next_seq
  pub prev : w.expected_prev ≡ l.last_chain
  pub started : is_start w ≡ false

module _ (J : JsonLib) where
  unfoldable pub written : Logger → List (Dict Value) → List Text
  written l [] = []
  written l (e ∷ es) = J.formatted (full_record J l e) ∷ written (emit J l e) es

  pub lines-emit_all :
      (l : Logger) (es : List (Dict Value)) → (emit_all J l es).lines ≡ l.lines ++ written l es
  unfolding emit_all written
  lines-emit_all l [] = sym (append-nil l.lines)
  lines-emit_all l (e ∷ es) = lines-emit_all (emit J l e) es ∙ append_assoc l.lines _ _

  -- One line further: the walk has one record more and matches the writer again.
  step-Matches :
      (w : Walk) (lineno : ℕ) (l : Logger) (e : Dict Value)
      → IsPlain e
      → Matches w l
      → (v : Walk) × (check_line J w lineno (J.formatted (full_record J l e)) ≡ more v)
        × Matches v (emit J l e)
        × (v.records ≡ w.records + 1)
        × (v.start ≡ w.start)
  unfolding emit
  step-Matches w lineno l e plain m =
      let k : Link = new_link J l e in
      let same : begin_at w k ≡ w = begin_at-started w k m.started in
      (
        advanced w k,
        check_line-emitted J l e w lineno plain (rw same m.seq) (rw same m.prev) (λ on. cc)
            ∙ rw same,
        record { seq = ap int_suc m.seq; prev = refl; started = unfold is_start in m.started },
        refl,
        refl,
      )

  pub walk-written :
      (w : Walk) (lineno : ℕ) (l : Logger) (es : List (Dict Value)) (rest : List Text)
      → All IsPlain es
      → Matches w l
      → (v : Walk) × (walk_lines J w lineno (written l es ++ rest)
          ≡ walk_lines J v (lineno + length es) rest)
        × Matches v (emit_all J l es)
        × (v.records ≡ w.records + length es)
        × (v.start ≡ w.start)
  unfolding walk_lines written emit_all
  walk-written w lineno l [] rest plain m =
      (w, ap (λ n. walk_lines J w n rest) (omega arith), m, omega arith, refl)
  walk-written w lineno l (e ∷ es) rest plain m =
      let (v, step, mv, rv, sv) = step-Matches w lineno l e plain.0 m in
      let (u, walk, mu, ru, su) = walk-written v (lineno + 1) (emit J l e) es rest plain.1 mv in
      (
        u,
        rw (step, walk_lines) (walk ∙ ap (λ n. walk_lines J u n rest) (omega arith)),
        mu,
        omega arith,
        su ∙ sv,
      )
