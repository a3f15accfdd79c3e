-- ===== src/Audit/Verify.antt =====
-- `verify_chain` of src/relay_shell/audit.py, over the lines of a readable file.
use relay_shell.Prelude.{
  ℕ, ◌+◌, Bool, true, false, not, ◌&&◌, List, [], ◌∷◌, Option, none, some, Text, text_eq, remove,
  if◌then◌else◌,
}
use relay_shell.Prelude.Int.{ℤ, pos, int_suc, int_eq}
use relay_shell.Audit.{
  Doc, object, scalar, JsonLib, Link, key_chain, genesis, is_chained, chain_value,
}

-- The texts of `ChainResult.reason`.
pub data Reason : Type 0 where
  invalid_json missing_fields not_genesis wrong_seq wrong_prev tampered : Reason
  no_records anchored_chain unanchored_chain : Reason

pub record ChainResult : Type 0 where
  pub passed : Bool
  pub records : ℕ
  pub start : Option Link
  pub broken_at : Option ℕ
  pub reason : Reason
  pub anchored : Bool

-- The variables of the loop; `start` is `none` until `started`, and carries `start_seq` and
-- `start_prev`.
pub record Walk : Type 0 where
  pub records : ℕ
  pub start : Option Link
  pub expected_seq : ℤ
  pub expected_prev : Text

pub data Progress : Type 0 where
  more : Walk → Progress
  stop : ChainResult → Progress

unfoldable pub broken : Walk → ℕ → Reason → Progress
broken w lineno why = stop (record {
  passed = false;
  records = w.records;
  start = w.start;
  broken_at = some lineno;
  reason = why;
  anchored = false;
})

-- Before the first chained record whatever is not one is skipped.
unfoldable pub skip_or : Walk → ℕ → Reason → Progress
unfolding broken
skip_or w lineno why = elim w.start [ none ↦ more w | some _ ↦ broken w lineno why ]

-- `if not started`: the first chained record sets the expectations.
unfoldable pub begin_at : Walk → Link → Walk
begin_at w k = elim w.start [
  | none ↦ record w { start = some k; expected_seq = k.seq; expected_prev = k.prev }
  | some _ ↦ w
]

unfoldable pub is_start : Walk → Bool
is_start w = elim w.start [ none ↦ true | some _ ↦ false ]

module _ (J : JsonLib) where
  -- `_chain_value(rec["prev"], body)`, the body being the record without `chain`.
  unfoldable pub recomputed : Doc → Link → Text
  unfolding chain_value
  recomputed (object d) k = chain_value J k.prev (remove key_chain d)
  recomputed (scalar _) k = []

  unfoldable pub check_link : Walk → ℕ → Doc → Link → Progress
  unfolding broken begin_at is_start recomputed
  check_link w lineno doc k =
      let v = begin_at w k in
      if is_start w && (int_eq k.seq (pos 0) && not (text_eq k.prev genesis))
      then broken v lineno not_genesis
      else if not (int_eq k.seq v.expected_seq)
      then broken v lineno wrong_seq
      else if not (text_eq k.prev v.expected_prev)
      then broken v lineno wrong_prev
      else if not (text_eq (recomputed doc k) k.chain)
      then broken v lineno tampered
      else more (record v {
        records = v.records + 1;
        expected_prev = k.chain;
        expected_seq = int_suc v.expected_seq;
      })

  unfoldable pub check_doc : Walk → ℕ → Option Doc → Progress
  unfolding skip_or check_link
  check_doc w lineno none = skip_or w lineno invalid_json
  check_doc w lineno (some doc) = elim (is_chained doc) [
    | none ↦ skip_or w lineno missing_fields
    | some k ↦ check_link w lineno doc k
  ]

  unfoldable pub check_line : Walk → ℕ → Text → Progress
  unfolding check_doc
  check_line w lineno raw =
      let line = J.strip raw in
      if text_eq line [] then more w else check_doc w lineno (J.loads line)

  unfoldable pub finish : Walk → ChainResult
  finish w = elim w.start [
    | none ↦ record {
      passed = true;
      records = 0;
      start = none;
      broken_at = none;
      reason = no_records;
      anchored = false;
    }
    | some k ↦
        let first = int_eq k.seq (pos 0) && text_eq k.prev genesis in
        record {
          passed = true;
          records = w.records;
          start = some k;
          broken_at = none;
          reason = if first then anchored_chain else unanchored_chain;
          anchored = first;
        }
  ]

  unfoldable pub walk_lines : Walk → ℕ → List Text → ChainResult
  unfolding finish
  walk_lines w lineno [] = finish w
  walk_lines w lineno (raw ∷ rest) = elim (check_line w lineno raw) [
    | more v ↦ walk_lines v (lineno + 1) rest
    | stop r ↦ r
  ]

  unfoldable pub verify_chain : List Text → ChainResult
  unfolding walk_lines
  verify_chain lines =
      walk_lines
        (record { records = 0; start = none; expected_seq = pos 0; expected_prev = genesis }) 1
        lines
