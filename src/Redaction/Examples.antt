-- ===== src/Redaction/Examples.antt =====
-- Redaction on two rules, each of which collapses a text with its hint.
use relay_shell.Prelude.{
  ◌≡◌, refl, arith, [], ◌∷◌, some, Text, codes, contains, if◌then◌else◌, text_eq, starts_with,
}
use relay_shell.Notices.{lower}
use relay_shell.Redaction.{Rule, Tables, has_hint, whole_match_hints, redact}
use relay_shell.Redaction.Scrub.{
  text_key, text, bytes, dict, list, tuple, nil, cons, Fields, end, field, redact_args,
}
use relay_shell.Redaction.Gates.{IsCovered}
use relay_shell.Redaction.Stands.{Named}
use relay_shell.Redaction.Clean.{redact_args-Named}

abbrev placeholder : Text
placeholder = codes "[REDACTED]"

abbrev authorization : Rule
authorization = record {
  pattern = 0;
  sub = λ s. if contains (codes "authorization") (lower s) then placeholder else s;
}

abbrev token : Rule
token = record { pattern = 1; sub = λ s. if has_hint whole_match_hints s then placeholder else s }

abbrev tables : Tables
tables = record {
  original_prefix = authorization ∷ [];
  prefix_patterns = authorization ∷ [];
  command_scoped = [];
  whole_match = token ∷ [];
  url_creds = λ s. s;
  url_token_userinfo = λ s. s;
  is_mysql_family = contains (codes "mysql");
  mysql_compact = λ s. s;
}

covered : IsCovered tables
covered = omega arith

-- A header and a token collapse; a text without a hint stays.
redact_header : redact tables (codes "-H Authorization: x") ≡ some placeholder
unfolding redact starts_with text_eq
redact_header = refl

redact_plain : redact tables (codes "ls -l") ≡ some (codes "ls -l")
unfolding redact starts_with text_eq
redact_plain = refl

abbrev sent : Fields
sent = field (text_key (codes "command")) (text (codes "ls -l")) (
    field (text_key (codes "env"))
      (dict (field (text_key (codes "k")) (tuple (cons (bytes (65 ∷ [])) nil)) end)) end)

sent_kept :
    redact_args tables (λ bs. bs) 3 sent
    ≡ some (
        field (text_key (codes "command")) (text (codes "ls ...(+2)")) (
          field
            (text_key (codes "env"))
            (dict (field (text_key (codes "k")) (list (cons (text (codes "A")) nil)) end))
            end))
unfolding redact_args starts_with
sent_kept = refl

redact_args-Named_example :
    (kept : Fields) × (redact_args tables (λ bs. bs) 3 sent ≡ some kept)
    × Named tables (λ bs. bs) 3 sent kept
redact_args-Named_example = redact_args-Named tables (λ bs. bs) 3 sent covered
