-- ===== src/Redaction/Scrub.antt =====
-- `_scrub_str`, `_scrub` and `redact_args` of src/relay_shell/redaction.py.
use relay_shell.Prelude.{
  ℕ, ◌+◌, ◌-◌, Bool, false, ◌||◌, List, ◌++◌, Option, some, Text, codes, text_eq, if◌then◌else◌,
  ltb, ◌==◌, length, take, show_nat,
}
use relay_shell.Redaction.{Tables, ◌>>=◌, redact}

abbrev pub redact_scan_margin : ℕ
redact_scan_margin = 16384

-- The end of `_scrub_str`, with the count of characters that were not scanned.
unfoldable pub cut_at : ℕ → Text → ℕ → Text
unfolding show_nat
cut_at max_len red tail =
    if ltb max_len (length red) || ltb 0 tail
    then take max_len red ++ codes "...(+" ++ show_nat ((length red - max_len) + tail) ++ codes ")"
    else red

unfoldable pub scrub_str : Tables → ℕ → Text → Option Text
unfolding redact cut_at
scrub_str t max_len text = do
  let scanned = take (max_len + redact_scan_margin) text
  red ← redact t scanned
  some (cut_at max_len red (length text - length scanned))

-- A key of a dict: a text, or any other value by a number.
pub data Key : Type 0 where
  text_key : Text → Key
  other_key : ℕ → Key

unfoldable pub key_eq : Key → Key → Bool
unfolding text_eq
key_eq (text_key s) (text_key t) = text_eq s t
key_eq (other_key m) (other_key n) = m == n
key_eq (text_key s) (other_key n) = false
key_eq (other_key m) (text_key t) = false

-- An audited value; one that is neither text nor a container stands as a number.
mutual
  pub data Argument : Type 0 where
    text : Text → Argument
    bytes : List ℕ → Argument
    dict : Fields → Argument
    list : Items → Argument
    tuple : Items → Argument
    other : ℕ → Argument

  pub data Items : Type 0 where
    nil : Items
    cons : Argument → Items → Items

  pub data Fields : Type 0 where
    end : Fields
    field : Key → Argument → Fields → Fields

-- An assignment in a dict.
unfoldable pub put_field : Key → Argument → Fields → Fields
unfolding key_eq
put_field k v end = field k v end
put_field k v (field j w fs) =
    let rest = put_field k v fs in if key_eq j k then field j v fs else field j w rest

unfoldable pub scrub_key : Tables → ℕ → Key → Option Key
unfolding scrub_str
scrub_key t max_len (text_key s) = do scrubbed ← scrub_str t max_len s; some (text_key scrubbed)
scrub_key t max_len (other_key n) = some (other_key n)

-- `_scrub`, where `decode` is `bytes.decode("utf-8", errors="replace")`; the fields of a dict are
-- assigned to a new one in order.
unfoldable mutual
  unfolding scrub_str scrub_key put_field

  pub scrub : Tables → (List ℕ → Text) → ℕ → Argument → Option Argument
  scrub t decode max_len (text s) = do scrubbed ← scrub_str t max_len s; some (text scrubbed)
  scrub t decode max_len (bytes bs) = do
    scrubbed ← scrub_str t max_len (decode bs)
    some (text scrubbed)
  scrub t decode max_len (dict fs) = do
    scrubbed ← scrub_fields t decode max_len fs end
    some (dict scrubbed)
  scrub t decode max_len (list vs) = do
    scrubbed ← scrub_items t decode max_len vs
    some (list scrubbed)
  scrub t decode max_len (tuple vs) = do
    scrubbed ← scrub_items t decode max_len vs
    some (list scrubbed)
  scrub t decode max_len (other n) = some (other n)

  pub scrub_items : Tables → (List ℕ → Text) → ℕ → Items → Option Items
  scrub_items t decode max_len nil = some nil
  scrub_items t decode max_len (cons v vs) = do
    first ← scrub t decode max_len v
    rest ← scrub_items t decode max_len vs
    some (cons first rest)

  pub scrub_fields : Tables → (List ℕ → Text) → ℕ → Fields → Fields → Option Fields
  scrub_fields t decode max_len end made = some made
  scrub_fields t decode max_len (field k v fs) made = do
    key ← scrub_key t max_len k
    value ← scrub t decode max_len v
    scrub_fields t decode max_len fs (put_field key value made)

-- The keys of `args` are distinct and stay as they are, so the comprehension goes entry by entry.
unfoldable pub redact_args : Tables → (List ℕ → Text) → ℕ → Fields → Option Fields
unfolding scrub
redact_args t decode max_len end = some end
redact_args t decode max_len (field k v fs) = do
  value ← scrub t decode max_len v
  rest ← redact_args t decode max_len fs
  some (field k value rest)
