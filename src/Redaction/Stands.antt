-- ===== src/Redaction/Stands.antt =====
-- What may stand in an audit record for a value, by the shape of the value.
use relay_shell.Prelude.{
  ℕ, ◌+◌, ◌-◌, ◌≤◌, ◌<◌, Bool, true, false, if◌then◌else◌, ◌≡◌, ◌⊎◌, List, ◌++◌, some, Text, codes,
  length, take, show_nat,
}
use relay_shell.Redaction.{Tables, redact}
use relay_shell.Redaction.Scrub.{
  redact_scan_margin, key_eq, Key, text_key, other_key, Argument, text, bytes, dict, list, tuple,
  other, Items, nil, cons, Fields, end, field,
}

-- The redacted start of a text: whole exactly where it fits, and else its first characters with the count of
-- those left out.
abbrev pub IsCut : Tables → ℕ → Text → Text → Type 0
IsCut t max_len s w =
    (red : Text) × (redact t (take (max_len + redact_scan_margin) s) ≡ some red)
    × (((w ≡ red) × (length red ≤ max_len) × (length s ≤ max_len + redact_scan_margin))
        ⊎ (((max_len < length red) ⊎ (max_len + redact_scan_margin < length s))
            × (w
                ≡ take max_len red
                  ++ codes "...(+"
                  ++ show_nat ((length red - max_len) + (length s - (max_len + redact_scan_margin)))
                  ++ codes ")")))

abbrev pub IsKeyOf : Tables → ℕ → Key → Key → Type 0
IsKeyOf t max_len (text_key s) k = (w : Text) × (k ≡ text_key w) × IsCut t max_len s w
IsKeyOf t max_len (other_key n) k = k ≡ other_key n

abbrev pub Every : (Key → Argument → Type 0) → Fields → Type 0
Every P end = Unit
Every P (field k v fs) = P k v × Every P fs

unfoldable pub has_field : Key → Fields → Bool
unfolding key_eq
has_field j end = false
has_field j (field k v fs) = let rest = has_field j fs in if key_eq k j then true else rest

-- The key of an entry is in the dict, scrubbed.
abbrev pub HasKey : Tables → ℕ → Fields → Key → Argument → Type 0
HasKey t max_len gs k v = (j : Key) × IsKeyOf t max_len k j × (has_field j gs ≡ true)

-- A value and what may stand for it in the record: a text or decoded bytes cut, a list or tuple as a
-- list of what stands for its values in order, and a dict as one whose every entry stands for one of
-- its entries and that has what stands for every key.
abbrev mutual
  pub Stands : Tables → (List ℕ → Text) → ℕ → Argument → Argument → Type 0
  Stands t decode m (text s) v = (w : Text) × (v ≡ text w) × IsCut t m s w
  Stands t decode m (bytes bs) v = (w : Text) × (v ≡ text w) × IsCut t m (decode bs) w
  Stands t decode m (dict fs) v =
      (gs : Fields) × (v ≡ dict gs) × Every (Comes t decode m fs) gs × Every (HasKey t m gs) fs
  Stands t decode m (list vs) v = (ws : Items) × (v ≡ list ws) × StandAll t decode m vs ws
  Stands t decode m (tuple vs) v = (ws : Items) × (v ≡ list ws) × StandAll t decode m vs ws
  Stands t decode m (other n) v = v ≡ other n

  pub StandAll : Tables → (List ℕ → Text) → ℕ → Items → Items → Type 0
  StandAll t decode m nil ws = ws ≡ nil
  StandAll t decode m (cons v vs) ws =
      (w : Argument) × (rest : Items) × (ws ≡ cons w rest)
      × Stands t decode m v w
      × StandAll t decode m vs rest

  pub Comes : Tables → (List ℕ → Text) → ℕ → Fields → Key → Argument → Type 0
  Comes t decode m end k v = ⊥
  Comes t decode m (field j w fs) k v =
      (IsKeyOf t m j k × Stands t decode m w v) ⊎ Comes t decode m fs k v

-- The arguments of a call under their own keys, in order.
abbrev pub Named : Tables → (List ℕ → Text) → ℕ → Fields → Fields → Type 0
Named t decode m end gs = gs ≡ end
Named t decode m (field k v fs) gs =
    (w : Argument) × (rest : Fields) × (gs ≡ field k w rest)
    × Stands t decode m v w
    × Named t decode m fs rest
