-- ===== src/Redaction/Clean.antt =====
-- What `redact_args` leaves in the audit arguments.
use relay_shell.Prelude.{
  ℕ, ◌+◌, ◌-◌, ◌≡◌, refl, sym, ap, subst, inl, inr, true, ◌||◌, List, ltb, ◌++◌, some, Text, codes,
  arith, length, take, length-take, show_nat, Bool-cases, text_eq_sound, text_eq_refl, ◌<◌, ◌⊎◌,
  ◌∙◌, ==_iff,
}
use relay_shell.Redaction.{Tables}
use relay_shell.Redaction.Scrub.{
  redact_scan_margin, cut_at, scrub_str, Key, text_key, other_key, key_eq, Argument, text, bytes,
  dict, list, tuple, other, Items, nil, cons, Fields, end, field, put_field, scrub_key, scrub,
  scrub_items, scrub_fields, redact_args,
}
use relay_shell.Redaction.Stands.{
  IsCut, IsKeyOf, HasKey, has_field, Every, Stands, StandAll, Comes, Named,
}
use relay_shell.Redaction.Gates.{IsCovered, redact_total}

key_eq_sound : (j k : Key) → key_eq j k ≡ true → j ≡ k
unfolding key_eq
key_eq_sound (text_key s) (text_key t) h = ap text_key (text_eq_sound s t h)
key_eq_sound (other_key m) (other_key n) h = ap other_key ((==_iff m n).0 h)
key_eq_sound (text_key s) (other_key n) h = absurd cc
key_eq_sound (other_key m) (text_key t) h = absurd cc

key_eq_refl : (k : Key) → key_eq k k ≡ true
unfolding key_eq
key_eq_refl (text_key s) = text_eq_refl s
key_eq_refl (other_key n) = ground arith

has_field-put_new : (k : Key) (v : Argument) (fs : Fields) → has_field k (put_field k v fs) ≡ true
unfolding has_field put_field
has_field-put_new k v end = ground (arith, key_eq_refl k)
has_field-put_new k v (field j w fs) = ground (arith, has_field-put_new k v fs)

has_field-put_old :
    (j k : Key) (v : Argument) (fs : Fields)
    → has_field j fs ≡ true
    → has_field j (put_field k v fs) ≡ true
unfolding has_field put_field
has_field-put_old j k v end h = absurd cc
has_field-put_old j k v (field i w fs) h = ground (arith, has_field-put_old j k v fs)

put_field-Every :
    (P : Key → Argument → Type 0) (k : Key) (v : Argument) (fs : Fields)
    → P k v
    → Every P fs
    → Every P (put_field k v fs)
unfolding put_field
put_field-Every P k v end p ps = (p, tt)
put_field-Every P k v (field j w fs) p ps = elim (Bool-cases (key_eq j k)) [
  | inl same ↦ rw same (subst (λ i. P i v) (sym (key_eq_sound j k same)) p, ps.1)
  | inr different ↦ rw different (ps.0, put_field-Every P k v fs p ps.1)
]

-- Entries of a dict and what they are scrubbed to, one by one.
abbrev Paired : Tables → (List ℕ → Text) → ℕ → Fields → Fields → Type 0
Paired t decode m end es = es ≡ end
Paired t decode m (field k v fs) es =
    (j : Key) × (w : Argument) × (rest : Fields) × (es ≡ field j w rest)
    × IsKeyOf t m k j
    × Stands t decode m v w
    × Paired t decode m fs rest

abbrev put_all : Fields → Fields → Fields
put_all end made = made
put_all (field k v fs) made = put_all fs (put_field k v made)

put_all-Every :
    (P : Key → Argument → Type 0) (es made : Fields)
    → Every P es
    → Every P made
    → Every P (put_all es made)
put_all-Every P end made es_hold made_hold = made_hold
put_all-Every P (field k v es) made es_hold made_hold =
    put_all-Every P es (put_field k v made) es_hold.1
      (put_field-Every P k v made es_hold.0 made_hold)

has_field-put_all :
    (j : Key) (es made : Fields) → has_field j made ≡ true → has_field j (put_all es made) ≡ true
has_field-put_all j end made h = h
has_field-put_all j (field k v es) made h =
    has_field-put_all j es (put_field k v made) (has_field-put_old j k v made h)

Every-imp :
    (P Q : Key → Argument → Type 0) (fs : Fields)
    → ((k : Key) (v : Argument) → P k v → Q k v)
    → Every P fs
    → Every Q fs
Every-imp P Q end imp ps = tt
Every-imp P Q (field k v fs) imp ps = (imp k v ps.0, Every-imp P Q fs imp ps.1)

module _ (t : Tables) (decode : List ℕ → Text) (m : ℕ) where
  Paired-Comes : (fs es : Fields) → Paired t decode m fs es → Every (Comes t decode m fs) es
  Paired-Comes end es paired = rw paired tt
  Paired-Comes (field k v fs) es (j, w, rest, e, is_key, stands, paired) = rw e (
    inl (is_key, stands),
    Every-imp (Comes t decode m fs) (Comes t decode m (field k v fs)) rest (λ i u c. inr c)
        (Paired-Comes fs rest paired),
  )

  Paired-HasKey :
      (fs es made gs : Fields)
      → Paired t decode m fs es
      → put_all es made ≡ gs
      → Every (HasKey t m gs) fs
  Paired-HasKey end es made gs paired g = tt
  Paired-HasKey (field k v fs) es made gs (j, w, rest, e, is_key, stands, paired) g =
      let at_end : put_all rest (put_field j w made) ≡ gs = sym (ap (λ x. put_all x made) e) ∙ g in
      (
        (
          j,
          is_key,
          subst (λ x. has_field j x ≡ true) at_end
              (has_field-put_all j rest (put_field j w made) (has_field-put_new j w made)),
        ),
        Paired-HasKey fs rest (put_field j w made) gs paired at_end,
      )

-- What is scanned of a text is its start, so the count of the rest is what is beyond the margin.
unscanned :
    (m : ℕ) (s : Text)
    → length s - length (take (m + redact_scan_margin) s) ≡ length s - (m + redact_scan_margin)
unscanned m s = omega (arith, length-take (m + redact_scan_margin) s)

too_long : (a b c d : ℕ) → (ltb a b || ltb 0 (d - c)) ≡ true → (a < b) ⊎ (c < d)
too_long a b c d h = elim (Bool-cases (ltb a b)) [
  | inl over ↦ inl (ground arith)
  | inr fits ↦ inr (ground arith)
]

scrub_str-IsCut :
    (t : Tables) (m : ℕ) (s : Text)
    → IsCovered t
    → (w : Text) × (scrub_str t m s ≡ some w) × IsCut t m s w
unfolding scrub_str cut_at
scrub_str-IsCut t m s covered =
    let (red, given) = redact_total t (take (m + redact_scan_margin) s) covered in
    let rest : ℕ = length s - (m + redact_scan_margin) in
    elim (Bool-cases (ltb m (length red) || ltb 0 rest)) [
      | inl long ↦ (
        take m red ++ codes "...(+" ++ show_nat ((length red - m) + rest) ++ codes ")",
        rw (given, unscanned m s, long) refl,
        (red, given, inr (too_long m (length red) (m + redact_scan_margin) (length s) long, refl)),
      )
      | inr fits ↦ (
        red,
        rw (given, unscanned m s, fits) refl,
        (red, given, inl (refl, ground arith, ground arith)),
      )
    ]

scrub_key-IsKeyOf :
    (t : Tables) (m : ℕ) (k : Key)
    → IsCovered t
    → (j : Key) × (scrub_key t m k ≡ some j) × IsKeyOf t m k j
unfolding scrub_key
scrub_key-IsKeyOf t m (text_key s) covered =
    let (w, given, is_cut) = scrub_str-IsCut t m s covered in
    (text_key w, rw given refl, (w, refl, is_cut))
scrub_key-IsKeyOf t m (other_key n) covered = (other_key n, refl, refl)

module _ (t : Tables) (decode : List ℕ → Text) (m : ℕ) (covered : IsCovered t) where
  mutual
    unfolding scrub scrub_items scrub_fields

    scrub-Stands :
        (v : Argument) → (w : Argument) × (scrub t decode m v ≡ some w) × Stands t decode m v w
    scrub-Stands (text s) =
        let (w, given, is_cut) = scrub_str-IsCut t m s covered in
        (text w, rw given refl, (w, refl, is_cut))
    scrub-Stands (bytes bs) =
        let (w, given, is_cut) = scrub_str-IsCut t m (decode bs) covered in
        (text w, rw given refl, (w, refl, is_cut))
    scrub-Stands (dict fs) =
        let (es, given, paired) = scrub_fields-Paired fs in
        (
          dict (put_all es end),
          rw (given end) refl,
          (
            put_all es end,
            refl,
            put_all-Every (Comes t decode m fs) es end (Paired-Comes t decode m fs es paired) tt,
            Paired-HasKey t decode m fs es end (put_all es end) paired refl,
          ),
        )
    scrub-Stands (list vs) =
        let (ws, given, all) = scrub_items-StandAll vs in (list ws, rw given refl, (ws, refl, all))
    scrub-Stands (tuple vs) =
        let (ws, given, all) = scrub_items-StandAll vs in (list ws, rw given refl, (ws, refl, all))
    scrub-Stands (other n) = (other n, refl, refl)

    scrub_items-StandAll :
        (vs : Items)
        → (ws : Items) × (scrub_items t decode m vs ≡ some ws) × StandAll t decode m vs ws
    scrub_items-StandAll nil = (nil, refl, refl)
    scrub_items-StandAll (cons v vs) =
        let (w, given, stands) = scrub-Stands v in
        let (ws, rest, all) = scrub_items-StandAll vs in
        (cons w ws, rw (given, rest) refl, (w, ws, refl, stands, all))

    scrub_fields-Paired :
        (fs : Fields)
        → (es : Fields) × ((made : Fields)
            → scrub_fields t decode m fs made ≡ some (put_all es made))
          × Paired t decode m fs es
    scrub_fields-Paired end = (end, λ made. refl, refl)
    scrub_fields-Paired (field k v fs) =
        let (j, key_given, is_key) = scrub_key-IsKeyOf t m k covered in
        let (w, given, stands) = scrub-Stands v in
        let (es, rest, paired) = scrub_fields-Paired fs in
        (
          field j w es,
          λ made. rw (key_given, given) (rest (put_field j w made)),
          (j, w, es, refl, is_key, stands, paired),
        )

-- With a row of hints for every built-in rule the arguments of a call are always redacted, and the
-- result has their keys in order, each with a value that stands for its own: a text is what `redact`
-- gives on its start of `max_len` and the margin, whole where all fits in `max_len` and else cut there
-- with the count of what is left out; bytes are such a text of their decoding; a list or tuple is the
-- list of such values; every entry of a dict has such a key and value of one entry of it, and
-- every key of it is there in such a form.
pub redact_args-Named :
    (t : Tables) (decode : List ℕ → Text) (max_len : ℕ) (args : Fields)
    → IsCovered t
    → (kept : Fields) × (redact_args t decode max_len args ≡ some kept)
      × Named t decode max_len args kept
unfolding redact_args
redact_args-Named t decode max_len end covered = (end, refl, refl)
redact_args-Named t decode max_len (field k v fs) covered =
    let (w, given, stands) = scrub-Stands t decode max_len covered v in
    let (gs, rest, named) = redact_args-Named t decode max_len fs covered in
    (field k w gs, rw (given, rest) refl, (w, gs, refl, stands, named))
