-- ===== src/Audit/Resume.antt =====
-- Restart and rotation of the audit chain (src/relay_shell/audit.py).
use relay_shell.Prelude.{
  ◌≡◌, ◌≢◌, refl, ap, ◌∙◌, List, [], ◌∷◌, ◌++◌, Option, some, Text, text_eq_iff, Dict, arith,
}
use relay_shell.Audit.{
  Value, JsonLib, Logger, emit, fresh, last_record, resume_chain, resume_from, tail_source,
}
use relay_shell.Audit.RoundTrip.{full_record, is_chained-full_record}

module _ (J : JsonLib) where
  last_record-snoc :
      (xs : List Text) (raw : Text)
      → J.strip raw ≢ []
      → last_record J (xs ++ raw ∷ []) ≡ J.strip raw
  unfolding last_record
  last_record-snoc [] raw h = ground (arith, text_eq_iff [] [])
  last_record-snoc (x ∷ xs) raw h =
      ground (arith, last_record-snoc xs raw h, text_eq_iff (J.strip raw) [])

  tail_source-snoc :
      (xs : List Text) (raw : Text) (rotated : Option (List Text))
      → tail_source (xs ++ raw ∷ []) rotated ≡ xs ++ raw ∷ []
  unfolding tail_source
  tail_source-snoc [] raw rotated = refl
  tail_source-snoc (x ∷ xs) raw rotated = refl

  -- Reading a tail that is not blank.
  resume_tail :
      (l : Logger) (rotated : Option (List Text)) (last : Text)
      → last_record J (tail_source l.lines rotated) ≡ last
      → last ≢ []
      → resume_chain J l rotated ≡ resume_from l (J.loads last)
  unfolding resume_chain
  resume_tail l rotated last e h = ground (arith, e, text_eq_iff last [])

  module _ (l : Logger) (e : Dict Value) where
    abbrev new_lines : List Text
    new_lines = (emit J l e).lines

    last_line : last_record J new_lines ≡ J.strip (J.formatted (full_record J l e))
    unfolding emit
    last_line = last_record-snoc l.lines _ (J.strip_nonblank (full_record J l e))

    resumed :
        (file : List Text)
        → resume_from
            (record fresh { lines = file })
            (J.loads (J.strip (J.formatted (full_record J l e))))
          ≡ record (emit J l e) { lines = file }
    unfolding resume_from emit
    resumed file =
        rw (J.loads_formatted (full_record J l e), resume_from)
          (rw (is_chained-full_record J l e, resume_from))

    -- A logger built on the file, or on an empty file whose newest rotated sibling is that file,
    -- goes on where the writer stood after its last record.
    pub resume-emit :
        (rotated : Option (List Text))
        → (resume_chain J (record fresh { lines = new_lines }) rotated ≡ emit J l e)
          × (resume_chain J fresh (some new_lines) ≡ record (emit J l e) { lines = [] })
    unfolding emit tail_source
    resume-emit rotated = (
      resume_tail (record fresh { lines = new_lines }) rotated _
            (ap (last_record J) (tail_source-snoc l.lines _ rotated) ∙ last_line)
            (J.strip_nonblank (full_record J l e))
          ∙ resumed new_lines,
      resume_tail fresh (some new_lines) _ last_line (J.strip_nonblank (full_record J l e))
          ∙ resumed [],
    )
