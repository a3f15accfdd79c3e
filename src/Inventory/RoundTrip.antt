-- ===== src/Inventory/RoundTrip.antt =====
-- A printed ssh_config is read back (`_parse_ssh_config` of src/relay_shell/inventory.py).
use relay_shell.Prelude.{
  ℕ, ◌≡◌, ◌≢◌, refl, sym, ap, ◌∙◌, Bool, true, false, not, ◌&&◌, ◌||◌, List, [], ◌∷◌, ◌++◌, Text,
  codes, Dict, put, ◌==◌, if◌then◌else◌, text_eq, strip, lstrip, rstrip, is_space, partition,
  partition-append, IsFree, All, arith, and_parts,
}
use relay_shell.Notices.{lower}
use relay_shell.Inventory.{
  HostSpec, Reader, has_wildcard, spec_of, setdefault, read_keyword, has_char, splits_at_equals,
  split_line, read_parts, read_stripped, read_line,
}

-- A word on a line: not empty, with neither white space nor an equals sign.
abbrev pub IsWord : Text → Type 0
IsWord s = (s ≢ []) × All (λ c. (is_space c ≡ false) × (c ≢ 61)) s

rstrip_word : (s : Text) → All (λ c. (is_space c ≡ false) × (c ≢ 61)) s → rstrip s ≡ s
unfolding rstrip
rstrip_word [] h = refl
rstrip_word (c ∷ s) h = rw (h.0.0, rstrip_word s h.1) refl

append-full : (s t : Text) (d : ℕ) → text_eq (s ++ d ∷ t) [] ≡ false
unfolding text_eq
append-full [] t d = refl
append-full (c ∷ s) t d = refl

rstrip-append : (s t : Text) → t ≢ [] → rstrip t ≡ t → rstrip (s ++ t) ≡ s ++ t
unfolding rstrip text_eq
rstrip-append [] t n h = h
rstrip-append (c ∷ s) [] n h = absurd (n refl)
rstrip-append (c ∷ s) (d ∷ t) n h =
    rw (rstrip-append s (d ∷ t) n h, append-full s t d) (ground arith)

strip_word : (s : Text) → IsWord s → strip s ≡ s
unfolding strip lstrip
strip_word [] w = refl
strip_word (c ∷ s) w = rw (w.1.0.0) (rstrip_word (c ∷ s) w.1)

has_char-IsFree : (d : ℕ) (s : Text) → IsFree d s → has_char d s ≡ false
unfolding has_char
has_char-IsFree d [] h = refl
has_char-IsFree d (c ∷ s) h = ground (arith, has_char-IsFree d s h.1)

word_free :
    (d : ℕ) (s : Text)
    → is_space d ≡ true
    → All (λ c. (is_space c ≡ false) × (c ≢ 61)) s
    → IsFree d s
word_free d [] space h = tt
word_free d (c ∷ s) space h = (
  λ e. let wrong : true ≡ false = sym space ∙ ap is_space (sym e) ∙ h.0.0 in cc,
  word_free d s space h.1,
)

has_char-append : (d : ℕ) (s t : Text) → has_char d (s ++ t) ≡ (has_char d s || has_char d t)
unfolding has_char
has_char-append d [] t = refl
has_char-append d (c ∷ s) t = ground (arith, has_char-append d s t)

equals_free : (s : Text) → All (λ c. (is_space c ≡ false) × (c ≢ 61)) s → IsFree 61 s
equals_free [] h = tt
equals_free (c ∷ s) h = (h.0.1, equals_free s h.1)

pair_unsplit :
    (key val : Text) → IsWord key → IsWord val → splits_at_equals (key ++ 32 ∷ val) ≡ false
unfolding splits_at_equals has_char
pair_unsplit key val k v =
    rw
      (
        has_char-append 61 key (32 ∷ val),
        has_char-IsFree 61 key (equals_free key k.1),
        has_char-IsFree 61 val (equals_free val v.1),
      )
      refl

strip_pair : (key val : Text) → IsWord key → IsWord val → strip (key ++ 32 ∷ val) ≡ key ++ 32 ∷ val
unfolding strip lstrip
strip_pair [] val k v = absurd (k.0 refl)
strip_pair (c ∷ key) val k v = rw k.1.0.0 (
    rstrip-append (c ∷ key) (32 ∷ val) (λ e. cc)
      (rstrip-append (32 ∷ []) val v.0 (rstrip_word val v.1)))

split_line_pair :
    (key val : Text) → IsWord key → IsWord val → split_line (key ++ 32 ∷ val) ≡ (key, true, val)
unfolding split_line is_space
split_line_pair key val k v =
    ap (λ b. partition (if b then 61 else 32) (key ++ 32 ∷ val)) (pair_unsplit key val k v)
    ∙ partition-append 32 key val (word_free 32 key refl k.1)

read_stripped_unmarked :
    (c : ℕ) (s : Text) (r : Reader)
    → c ≢ 35
    → read_stripped (c ∷ s) r ≡ read_parts (split_line (c ∷ s)) r
unfolding read_stripped
read_stripped_unmarked c s r n =
    let unmarked : (c == 35) ≡ false = ground arith in
    ap (λ b. if b then r else read_parts (split_line (c ∷ s)) r) unmarked

read_parts_words :
    (key val : Text) (r : Reader)
    → IsWord key
    → IsWord val
    → read_parts (key, true, val) r ≡ read_keyword (lower key) val r
unfolding read_parts
read_parts_words key val r k v =
    ap (λ t. read_keyword (lower t) (strip val) r) (strip_word key k)
    ∙ ap (λ t. read_keyword (lower key) t r) (strip_word val v)

-- A line of a key and a value.
pub read_line_pair :
    (c : ℕ) (key val : Text) (r : Reader)
    → c ≢ 35
    → IsWord (c ∷ key)
    → IsWord val
    → read_line (c ∷ (key ++ 32 ∷ val)) r ≡ read_keyword (lower (c ∷ key)) val r
unfolding read_line
read_line_pair c key val r mark k v =
    ap (λ t. read_stripped t r) (strip_pair (c ∷ key) val k v)
    ∙ read_stripped_unmarked c (key ++ 32 ∷ val) r mark
    ∙ ap (λ p. read_parts p r) (split_line_pair (c ∷ key) val k v)
    ∙ read_parts_words (c ∷ key) val r k v

-- The keywords of a host block, as a file spells them and as the reader keeps them.
pub data Keyword : Type 0 where
  host_name user_name port_number identity_file proxy_jump : Keyword

abbrev pub spelled : Keyword → Text
spelled host_name = codes "HostName"
spelled user_name = codes "User"
spelled port_number = codes "Port"
spelled identity_file = codes "IdentityFile"
spelled proxy_jump = codes "ProxyJump"

abbrev pub stored : Keyword → Text
stored host_name = codes "hostname"
stored user_name = codes "user"
stored port_number = codes "port"
stored identity_file = codes "identityfile"
stored proxy_jump = codes "proxyjump"

-- A block of an ssh_config: an alias and keywords with their values.
pub record Block : Type 0 where
  pub alias : Text
  pub fields : List (Keyword × Text)

abbrev pub print_fields : List (Keyword × Text) → List Text
print_fields [] = []
print_fields ((k, v) ∷ fs) = (spelled k ++ 32 ∷ v) ∷ print_fields fs

unfoldable pub print_blocks : List Block → List Text
print_blocks [] = []
print_blocks (b ∷ bs) = (codes "Host" ++ 32 ∷ b.alias) ∷ (print_fields b.fields ++ print_blocks bs)

-- The first value of a keyword counts.
abbrev pub first_values : Dict Text → List (Keyword × Text) → Dict Text
first_values cur [] = cur
first_values cur ((k, v) ∷ fs) = first_values (setdefault (stored k) v cur) fs

-- A later block of the same alias replaces the entry of an earlier one.
abbrev pub specs_from : Dict HostSpec → List Block → Dict HostSpec
specs_from hosts [] = hosts
specs_from hosts (b ∷ bs) =
    specs_from (put b.alias (spec_of b.alias (first_values [] b.fields)) hosts) bs

abbrev pub IsBlock : Block → Type 0
IsBlock b = IsWord b.alias × (has_wildcard b.alias ≡ false) × All (λ f. IsWord f.1) b.fields

unfoldable pub is_word : Text → Bool
is_word [] = true
is_word (c ∷ s) = not (is_space c) && not (c == 61) && is_word s

is_word-chars : (s : Text) → is_word s ≡ true → All (λ c. (is_space c ≡ false) × (c ≢ 61)) s
unfolding is_word
is_word-chars [] h = tt
is_word-chars (c ∷ s) h =
    let (both, others) = and_parts (not (is_space c) && not (c == 61)) (is_word s) h in
    let (first, second) = and_parts (not (is_space c)) (not (c == 61)) both in
    ((ground arith, λ e. ground arith), is_word-chars s others)

pub IsWord-chars : (c : ℕ) (s : Text) → is_word (c ∷ s) ≡ true → IsWord (c ∷ s)
IsWord-chars c s h = (λ e. cc, is_word-chars (c ∷ s) h)
