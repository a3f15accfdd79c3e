-- ===== src/Audit/Examples.antt =====
-- Runs of the writer and verifier over a small codec, and the theorems at concrete inputs.
use relay_shell.Prelude.{
  ◌≡◌, refl, true, false, List, [], ◌∷◌, ◌++◌, ◌⊎◌, some, none, codes, Dict, length, text_eq,
  has_key, put, get, remove, Option, ◌&&◌,
}
use relay_shell.Prelude.Int.{pos, int_eq}
use relay_shell.Audit.{
  Value, text, emit, emit_all, fresh, resume_chain, genesis, Doc, object, is_chained,
}
use relay_shell.Audit.Verify.{verify_chain, wrong_seq, recomputed}
use relay_shell.Audit.RoundTrip.{IsPlain, written, full_record, new_link}
use relay_shell.Audit.Writer.{written-passes, lost_write_found}
use relay_shell.Audit.Sound.{verify_chain-IsWhole, IsWhole, IsChain, region, docs}
use relay_shell.Audit.Tamper.{last_hash-fixes, Collision, bodies}
use relay_shell.Audit.Resume.{resume-emit}
use relay_shell.Audit.Codec.{lib, checksum_fixed}

abbrev first_entry : Dict Value
first_entry = (codes "tool", text (codes "a")) ∷ []

abbrev second_entry : Dict Value
second_entry = (codes "tool", text (codes "b")) ∷ []

first_entry-IsPlain : IsPlain first_entry
unfolding has_key text_eq
first_entry-IsPlain = refl

second_entry-IsPlain : IsPlain second_entry
unfolding has_key text_eq
second_entry-IsPlain = refl

written-passes_example :
    let r = verify_chain lib (written lib fresh (first_entry ∷ second_entry ∷ [])) in
    (r.passed ≡ true)
    × (r.records ≡ 2)
    × (r.anchored ≡ int_eq (pos 0) (pos 0) && text_eq genesis genesis)
written-passes_example =
    written-passes lib fresh first_entry (second_entry ∷ []) first_entry-IsPlain
      (second_entry-IsPlain, tt) (λ _. refl)

lost_write_found_example :
    let after = emit lib (emit_all lib fresh (first_entry ∷ [])) second_entry in
    let r = verify_chain lib (
      written lib fresh (first_entry ∷ [])
      ++ lib.formatted (full_record lib after first_entry) ∷ []) in
    (r.passed ≡ false) × (r.reason ≡ wrong_seq) × (r.broken_at ≡ some 2)
lost_write_found_example =
    lost_write_found lib fresh first_entry [] second_entry first_entry [] first_entry-IsPlain tt
      (λ _. refl)

verify_chain-IsWhole_example :
    IsWhole lib (region lib (docs lib (written lib fresh (first_entry ∷ second_entry ∷ []))))
    × ((verify_chain lib (written lib fresh (first_entry ∷ second_entry ∷ []))).records
        ≡ length (region lib (docs lib (written lib fresh (first_entry ∷ second_entry ∷ [])))))
verify_chain-IsWhole_example =
    verify_chain-IsWhole lib (written lib fresh (first_entry ∷ second_entry ∷ []))
      written-passes_example.0

abbrev one_record : List (Option Doc)
one_record = some (object (full_record lib fresh first_entry)) ∷ []

one_record-IsChain : IsChain lib genesis (pos 0) one_record
unfolding is_chained recomputed put remove get text_eq
one_record-IsChain = (new_link lib fresh first_entry, refl, refl, refl, refl, tt)

last_hash-fixes_example :
    Collision lib ⊎ (genesis ≡ genesis) × (bodies lib one_record ≡ bodies lib one_record)
last_hash-fixes_example =
    last_hash-fixes lib checksum_fixed genesis genesis (pos 0) (pos 0) one_record one_record
      one_record-IsChain one_record-IsChain refl refl refl

resume-emit_example :
    (resume_chain lib (record fresh { lines = (emit lib fresh first_entry).lines }) none
      ≡ emit lib fresh first_entry)
    × (resume_chain lib fresh (some (emit lib fresh first_entry).lines)
        ≡ record (emit lib fresh first_entry) { lines = [] })
resume-emit_example = resume-emit lib fresh first_entry none
