-- ===== src/SshPool/Spec.antt =====
-- The specification of a port forward (`_parse_forward_spec` of src/relay_shell/sshpool.py).
use relay_shell.Prelude.{
  ℕ, ◌≡◌, ◌<◌, ◌∙◌, ap, ◌-◌, refl, ◌&&◌, ◌||◌, List, [], ◌∷◌, ◌++◌, Option, none, some, Text, codes,
  leb, if◌then◌else◌, text_eq, strip, partition, split_on, split_on-append, split_on_free,
  parse_int, parse_int-show_nat, length-show_nat, show_nat, show_nat-IsDigits, IsDigits, IsFree, ℤ,
  pos, arith,
}

-- `str.upper` of an ASCII letter: no other character becomes L, R or D alone.
unfoldable pub upper : Text → Text
upper [] = []
upper (c ∷ s) = (if leb 97 c && leb c 122 then c - 32 else c) ∷ upper s

-- The tuple of a specification, or one of the three errors.
pub data Spec : Type 0 where
  spec : Text → ℤ → Text → ℤ → Spec
  bad_fields : Text → Spec
  bad_dynamic : Spec
  bad_prefix : Spec

unfoldable pub with_ports : Text → Text → Option ℤ → Option ℤ → Spec
with_ports kind dhost (some lport) (some dport) = spec kind lport dhost dport
with_ports kind dhost lport dport = bad_fields kind

unfoldable pub three_fields : (ℕ → Option ℕ) → Text → List Text → Spec
unfolding with_ports parse_int
three_fields decimal kind (lport ∷ dhost ∷ dport ∷ []) =
    with_ports kind dhost (parse_int decimal lport) (parse_int decimal dport)
three_fields decimal kind fields = bad_fields kind

unfoldable pub dynamic_port : Option ℤ → Spec
dynamic_port none = bad_dynamic
dynamic_port (some lport) = spec (codes "D") lport [] (pos 0)

unfoldable pub parse_kind : (ℕ → Option ℕ) → Text → Text → Spec
unfolding three_fields dynamic_port text_eq split_on parse_int
parse_kind decimal kind rest =
    if text_eq kind (codes "L") || text_eq kind (codes "R")
    then three_fields decimal kind (split_on 58 rest)
    else if text_eq kind (codes "D")
    then dynamic_port (parse_int decimal rest)
    else bad_prefix

-- `_parse_forward_spec`
unfoldable pub parse_forward_spec : (ℕ → Option ℕ) → Text → Spec
unfolding parse_kind upper strip partition
parse_forward_spec decimal s =
    let parts = partition 58 s in parse_kind decimal (strip (upper parts.0)) parts.2

colon_free : (s : Text) → IsDigits s → IsFree 58 s
colon_free [] h = tt
colon_free (c ∷ s) h = (λ e. ground arith, colon_free s h.1)

fields_of :
    (lport dport : ℕ) (dhost : Text)
    → IsFree 58 dhost
    → split_on 58 (show_nat lport ++ 58 ∷ (dhost ++ 58 ∷ show_nat dport))
      ≡ show_nat lport ∷ dhost ∷ show_nat dport ∷ []
fields_of lport dport dhost h =
    rw
      (
        split_on-append 58 (show_nat lport) (dhost ++ 58 ∷ show_nat dport)
            (colon_free (show_nat lport) (show_nat-IsDigits lport)),
        split_on-append 58 dhost (show_nat dport) h,
        split_on_free 58 (show_nat dport) (colon_free (show_nat dport) (show_nat-IsDigits dport)),
      )
      refl

read_port :
    (decimal : ℕ → Option ℕ) (port : ℕ)
    → port < 100000
    → parse_int decimal (show_nat port) ≡ some (pos port)
read_port decimal port h = parse_int-show_nat decimal port (omega (arith, length-show_nat port h))

parse_L :
    (decimal : ℕ → Option ℕ) (rest : Text)
    → parse_forward_spec decimal (codes "L:" ++ rest)
      ≡ three_fields decimal (codes "L") (split_on 58 rest)
unfolding parse_forward_spec parse_kind partition upper strip text_eq
parse_L decimal rest = refl

parse_R :
    (decimal : ℕ → Option ℕ) (rest : Text)
    → parse_forward_spec decimal (codes "R:" ++ rest)
      ≡ three_fields decimal (codes "R") (split_on 58 rest)
unfolding parse_forward_spec parse_kind partition upper strip text_eq
parse_R decimal rest = refl

parse_D :
    (decimal : ℕ → Option ℕ) (rest : Text)
    → parse_forward_spec decimal (codes "D:" ++ rest) ≡ dynamic_port (parse_int decimal rest)
unfolding parse_forward_spec parse_kind partition upper strip text_eq
parse_D decimal rest = refl

three_fields-printed :
    (decimal : ℕ → Option ℕ) (kind : Text) (lport dport : ℕ) (dhost : Text)
    → lport < 100000
    → dport < 100000
    → IsFree 58 dhost
    → three_fields decimal kind
        (split_on 58 (show_nat lport ++ 58 ∷ (dhost ++ 58 ∷ show_nat dport)))
      ≡ spec kind (pos lport) dhost (pos dport)
unfolding three_fields with_ports
three_fields-printed decimal kind lport dport dhost p q h =
    rw (fields_of lport dport dhost h, read_port decimal lport p, read_port decimal dport q) refl

-- A forward specification is read back as it is written: `L:` and `R:` with a listen port, a host
-- without a colon and a port, and `D:` with a listen port. The ports have at most five digits.
pub parse_forward_spec-printed :
    (decimal : ℕ → Option ℕ) (lport dport : ℕ) (dhost : Text)
    → lport < 100000
    → dport < 100000
    → IsFree 58 dhost
    → let fields = show_nat lport ++ 58 ∷ (dhost ++ 58 ∷ show_nat dport) in
      (parse_forward_spec decimal (codes "L:" ++ fields)
        ≡ spec (codes "L") (pos lport) dhost (pos dport))
      × (parse_forward_spec decimal (codes "R:" ++ fields)
          ≡ spec (codes "R") (pos lport) dhost (pos dport))
      × (parse_forward_spec decimal (codes "D:" ++ show_nat lport)
          ≡ spec (codes "D") (pos lport) [] (pos 0))
unfolding dynamic_port
parse_forward_spec-printed decimal lport dport dhost p q h = (
  parse_L decimal _ ∙ three_fields-printed decimal (codes "L") lport dport dhost p q h,
  parse_R decimal _ ∙ three_fields-printed decimal (codes "R") lport dport dhost p q h,
  parse_D decimal (show_nat lport) ∙ ap dynamic_port (read_port decimal lport p),
)
