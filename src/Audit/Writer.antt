-- ===== src/Audit/Writer.antt =====
-- The chained writer against the verifier, over whole files (src/relay_shell/audit.py).
use mathlib.Core.List.{append-nil}
use relay_shell.Prelude.{
  ◌+◌, ◌≡◌, refl, sym, ap, ◌∙◌, true, false, List, [], ◌∷◌, ◌++◌, some, none, Text, Dict, All,
  arith, length, ◌&&◌, text_eq,
}
use relay_shell.Prelude.Int.{pos, int_eq, int_suc-ne}
use relay_shell.Audit.{Value, object, JsonLib, genesis, Logger, emit, emit_all}
use relay_shell.Audit.Verify.{
  Walk, check_line, walk_lines, finish, verify_chain, begin_at, is_start, wrong_seq, broken,
}
use relay_shell.Audit.RoundTrip.{
  IsPlain, full_record, new_link, advanced, check_line-emitted, check_line-doc,
  is_chained-full_record, Matches, written, walk-written, check_link-gap,
}

abbrev opening : Walk
opening = record { records = 0; start = none; expected_seq = pos 0; expected_prev = genesis }

module _ (J : JsonLib) (l : Logger) (e : Dict Value) (es : List (Dict Value)) where
  -- After the first line the walk has started there and matches the writer.
  walk-first :
      (rest : List Text)
      → IsPlain e
      → All IsPlain es
      → (l.next_seq ≡ pos 0 → l.last_chain ≡ genesis)
      → (v : Walk) × (verify_chain J (written J l (e ∷ es) ++ rest)
          ≡ walk_lines J v (length (e ∷ es) + 1) rest)
        × Matches v (emit_all J l (e ∷ es))
        × (v.records ≡ length (e ∷ es))
        × (v.start ≡ some (new_link J l e))
  unfolding verify_chain written emit_all
  walk-first rest plain plains anchor =
      let v : Walk = advanced (begin_at opening (new_link J l e)) (new_link J l e) in
      let (u, walk, mu, ru, su) =
        walk-written J v 2 (emit J l e) es rest plains
          (unfold begin_at is_start emit in record { seq = refl; prev = refl; started = refl }) in
      (
        u,
        rw
            (
              check_line-emitted J l e opening 1 plain (unfold begin_at in refl)
                  (unfold begin_at in refl) (λ _. anchor),
              walk_lines,
            )
            (walk ∙ ap (λ n. walk_lines J u n rest) (omega arith)),
        mu,
        unfold begin_at in omega (arith, ru),
        unfold begin_at in su,
      )

  -- A file that starts with a new record and holds all that was written is accepted whole, and is
  -- anchored exactly when the writer started at genesis.
  pub written-passes :
      IsPlain e
      → All IsPlain es
      → (l.next_seq ≡ pos 0 → l.last_chain ≡ genesis)
      → let r = verify_chain J (written J l (e ∷ es)) in
        (r.passed ≡ true)
        × (r.records ≡ length (e ∷ es))
        × (r.anchored ≡ int_eq l.next_seq (pos 0) && text_eq l.last_chain genesis)
  written-passes plain plains anchor =
      let (v, walk, m, count, from) = walk-first [] plain plains anchor in
      rw (sym (append-nil (written J l (e ∷ es))), walk)
        (unfold walk_lines finish in ground (arith, count, from))

  -- A record whose write failed on disk, between two that were written, stops the verifier at the
  -- line behind it with a gap in the sequence.
  pub lost_write_found :
      (lost next : Dict Value) (rest : List Text)
      → IsPlain e
      → All IsPlain es
      → (l.next_seq ≡ pos 0 → l.last_chain ≡ genesis)
      → let after = emit J (emit_all J l (e ∷ es)) lost in
        let r =
          verify_chain J (written J l (e ∷ es) ++ J.formatted (full_record J after next) ∷ rest) in
        (r.passed ≡ false) × (r.reason ≡ wrong_seq) × (r.broken_at ≡ some (length (e ∷ es) + 1))
  unfolding walk_lines broken
  lost_write_found lost next rest plain plains anchor =
      let after : Logger = emit J (emit_all J l (e ∷ es)) lost in
      let (v, walk, m, count, from) =
        walk-first (J.formatted (full_record J after next) ∷ rest) plain plains anchor in
      rw (walk, walk_lines, stops v m) (refl, refl, refl)
    where
      stops :
          (v : Walk)
          → Matches v (emit_all J l (e ∷ es))
          → let after = emit J (emit_all J l (e ∷ es)) lost in
            check_line J v (length (e ∷ es) + 1) (J.formatted (full_record J after next))
            ≡ broken v (length (e ∷ es) + 1) wrong_seq
      stops v m =
          let after : Logger = emit J (emit_all J l (e ∷ es)) lost in
          let d : Dict Value = full_record J after next in
          check_line-doc J v (length (e ∷ es) + 1) (object d) (new_link J after next)
            (J.formatted d) (J.strip_nonblank d) (J.loads_formatted d)
            (is_chained-full_record J after next)
          ∙ check_link-gap J v (length (e ∷ es) + 1) (object d) (new_link J after next) m.started
              (rw m.seq (unfold emit in int_suc-ne (emit_all J l (e ∷ es)).next_seq))
