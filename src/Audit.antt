-- ===== src/Audit.antt =====
-- The hash chain of the audit trail (src/relay_shell/audit.py): records, writer, restart.
-- The JSON codec, `str.strip` and SHA-256 are the parameter `JsonLib`.
pub mod Verify
pub mod RoundTrip
pub mod Writer
pub mod Lines
pub mod Sound
pub mod Tamper
pub mod Resume
mod Codec
mod Examples
use relay_shell.Prelude.{
  ℕ, zero, suc, ◌≡◌, ◌≢◌, Bool, true, false, List, [], ◌∷◌, ◌++◌, Option, none, some, Text, codes,
  text_eq, Dict, get, put, remove, has_key, if◌then◌else◌,
}
use relay_shell.Prelude.Int.{ℤ, pos, int_suc}

-- A value of a JSON object: what the chain reads, and all else as it stands.
pub data Value : Type 0 where
  int : ℤ → Value
  flag : Bool → Value
  text : Text → Value
  other : Text → Value

-- `isinstance(v, int)`, which holds of `True` and `False` too.
unfoldable pub as_int : Option Value → Option ℤ
as_int (some (int n)) = some n
as_int (some (flag b)) = some (pos (if b then 1 else 0))
as_int _ = none

unfoldable pub as_text : Option Value → Option Text
as_text (some (text t)) = some t
as_text _ = none

-- What a line of JSON holds.
pub data Doc : Type 0 where
  object : Dict Value → Doc
  scalar : Text → Doc

-- The standard library as the audit module uses it.
pub record JsonLib : Type 0 where
  pub strip : Text → Text
  pub loads : Text → Option Doc
  -- `json.dumps` with sorted keys and compact separators, and the on-disk one.
  pub canonical : Dict Value → Text
  pub formatted : Dict Value → Text
  pub sha256_hex : Text → Text
  -- A printed object is one line that is not blank, and parses back.
  pub strip_nonblank : (d : Dict Value) → strip (formatted d) ≢ []
  pub loads_formatted : (d : Dict Value) → loads (strip (formatted d)) ≡ some (object d)

abbrev pub key_seq : Text
key_seq = codes "seq"

abbrev pub key_prev : Text
key_prev = codes "prev"

abbrev pub key_chain : Text
key_chain = codes "chain"

-- `_CHAIN_GENESIS`, 64 zeros.
pub zeros : ℕ → Text
zeros zero = []
zeros (suc n) = 48 ∷ zeros n

unfoldable pub genesis : Text
unfolding zeros
genesis = zeros 64

-- The three chain fields of a record.
pub record Link : Type 0 where
  pub seq : ℤ
  pub prev : Text
  pub chain : Text

unfoldable pub link_of : Option ℤ → Option Text → Option Text → Option Link
link_of (some s) (some p) (some c) = some (record { seq = s; prev = p; chain = c })
link_of _ _ _ = none

-- `_is_chained`, with the fields that the test has found.
unfoldable pub is_chained : Doc → Option Link
unfolding as_int as_text link_of
is_chained (scalar _) = none
is_chained (object d) =
    link_of (as_int (get key_seq d)) (as_text (get key_prev d)) (as_text (get key_chain d))

-- `AuditLogger`, as far as the chain goes; `lines` is the file.
pub record Logger : Type 0 where
  pub next_seq : ℤ
  pub last_chain : Text
  pub lines : List Text

unfoldable pub resume_from : Logger → Option Doc → Logger
unfolding is_chained
resume_from l none = l
resume_from l (some doc) = elim (is_chained doc) [
  | none ↦ l
  | some k ↦ record l { next_seq = int_suc k.seq; last_chain = k.chain }
]

-- The file whose tail is read: the active one, or the newest rotated one if that is empty.
unfoldable pub tail_source : List Text → Option (List Text) → List Text
tail_source [] none = []
tail_source [] (some old) = old
tail_source (raw ∷ rest) rotated = raw ∷ rest

module _ (J : JsonLib) where
  unfoldable pub chain_value : Text → Dict Value → Text
  chain_value prev entry = J.sha256_hex (prev ++ J.canonical entry)

  -- `_emit` with the chain on; the handler writes the line.
  unfoldable pub emit : Logger → Dict Value → Logger
  unfolding chain_value
  emit l entry =
      let body = put key_prev (text l.last_chain) (put key_seq (int l.next_seq) entry) in
      let chain = chain_value l.last_chain body in
      record {
        next_seq = int_suc l.next_seq;
        last_chain = chain;
        lines = l.lines ++ J.formatted (put key_chain (text chain) body) ∷ [];
      }

  unfoldable pub emit_all : Logger → List (Dict Value) → Logger
  unfolding emit
  emit_all l [] = l
  emit_all l (e ∷ es) = emit_all (emit l e) es

  -- The last line that is not blank, stripped; empty if there is none.
  unfoldable pub last_record : List Text → Text
  last_record [] = []
  last_record (raw ∷ rest) =
      let later = last_record rest in if text_eq later [] then J.strip raw else later

  -- `_resume_chain`.
  unfoldable pub resume_chain : Logger → Option (List Text) → Logger
  unfolding resume_from last_record
  resume_chain l rotated =
      let last = last_record (tail_source l.lines rotated) in
      if text_eq last [] then l else resume_from l (J.loads last)

-- A logger on a new file.
abbrev pub fresh : Logger
fresh = record { next_seq = pos 0; last_chain = genesis; lines = [] }
