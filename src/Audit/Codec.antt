-- ===== src/Audit/Codec.antt =====
-- A concrete `JsonLib`: objects printed with the lengths of their texts, and a 64-place checksum.
use relay_shell.Prelude.{
  ℕ, zero, suc, ◌+◌, ◌≡◌, ◌≢◌, refl, ap, true, false, List, [], ◌∷◌, ◌++◌, Option, some, none, Text,
  Dict, length, take, drop, ◌==◌, if◌then◌else◌,
}
use relay_shell.Prelude.Int.{pos, negsuc}
use relay_shell.Audit.{Value, int, flag, text, other, Doc, object, JsonLib, zeros}

pub print_text : Text → Text → Text
print_text t rest = length t ∷ (t ++ rest)

print_value : Value → Text → Text
unfolding print_text
print_value (int (pos n)) rest = 0 ∷ n ∷ rest
print_value (int (negsuc n)) rest = 1 ∷ n ∷ rest
print_value (flag true) rest = 2 ∷ 1 ∷ rest
print_value (flag false) rest = 2 ∷ 0 ∷ rest
print_value (text t) rest = 3 ∷ print_text t rest
print_value (other t) rest = 4 ∷ print_text t rest

pub print_dict : Dict Value → Text
unfolding print_value
print_dict [] = []
print_dict ((k, v) ∷ d) = print_text k (print_value v (print_dict d))

read_text : Text → Option (Text × Text)
read_text [] = none
read_text (n ∷ s) = some (take n s, drop n s)

read_tagged : ℕ → Text → Option (Value × Text)
unfolding read_text
read_tagged tag [] = none
read_tagged tag (n ∷ s) =
    if tag == 0
    then some (int (pos n), s)
    else if tag == 1
    then some (int (negsuc n), s)
    else if tag == 2
    then some (flag (n == 1), s)
    else if tag == 3
    then some (text (take n s), drop n s)
    else some (other (take n s), drop n s)

read_value : Text → Option (Value × Text)
unfolding read_tagged
read_value [] = none
read_value (tag ∷ s) = read_tagged tag s

read_dict : ℕ → Text → Option (Dict Value)
read_dict zero s = some []
read_dict (suc n) s = elim (read_text s) [
  | none ↦ none
  | some (k, s₁) ↦ elim (read_value s₁) [
    | none ↦ none
    | some (v, s₂) ↦ elim (read_dict n s₂) [ none ↦ none | some d ↦ some ((k, v) ∷ d) ]
  ]
]

take-append_self {ℓ} : {A : Type ℓ} (t rest : List A) → take (length t) (t ++ rest) ≡ t
take-append_self [] rest = refl
take-append_self (c ∷ t) rest = ap (λ s. c ∷ s) (take-append_self t rest)

drop-append_self {ℓ} : {A : Type ℓ} (t rest : List A) → drop (length t) (t ++ rest) ≡ rest
drop-append_self [] rest = refl
drop-append_self (c ∷ t) rest = drop-append_self t rest

read_text-print : (t rest : Text) → read_text (print_text t rest) ≡ some (t, rest)
unfolding read_text print_text
read_text-print t rest = rw (take-append_self t rest, drop-append_self t rest)

read_value-print : (v : Value) (rest : Text) → read_value (print_value v rest) ≡ some (v, rest)
unfolding read_value print_value
read_value-print (int (pos n)) rest = refl
read_value-print (int (negsuc n)) rest = refl
read_value-print (flag true) rest = refl
read_value-print (flag false) rest = refl
read_value-print (text t) rest = rw (take-append_self t rest, drop-append_self t rest)
read_value-print (other t) rest = rw (take-append_self t rest, drop-append_self t rest)

read_dict-print : (d : Dict Value) → read_dict (length d) (print_dict d) ≡ some d
unfolding print_dict read_dict
read_dict-print [] = refl
read_dict-print ((k, v) ∷ d) =
    rw (read_text-print k (print_value v (print_dict d)), read_dict)
      (rw (read_value-print v (print_dict d), read_dict) (rw (read_dict-print d, read_dict)))

pub formatted : Dict Value → Text
formatted d = 7 ∷ length d ∷ print_dict d

pub loads : Text → Option Doc
loads [] = none
loads (mark ∷ []) = none
loads (mark ∷ n ∷ s) = elim (read_dict n s) [ none ↦ none | some d ↦ some (object d) ]

pub loads_back : (d : Dict Value) → loads (formatted d) ≡ some (object d)
unfolding loads formatted
loads_back d = rw (read_dict-print d, loads)

pub formatted_full : (d : Dict Value) → formatted d ≢ []
unfolding formatted
formatted_full d e = cc

sum : Text → ℕ
sum [] = 0
sum (c ∷ t) = c + sum t

pub checksum : Text → Text
unfolding sum
checksum t = sum t ∷ zeros 63

pub checksum_fixed : (t : Text) → length (checksum t) ≡ 64
unfolding checksum zeros
checksum_fixed t = refl

abbrev pub lib : JsonLib
lib = record {
  strip = λ t. t;
  loads = loads;
  canonical = print_dict;
  formatted = formatted;
  sha256_hex = checksum;
  strip_nonblank = formatted_full;
  loads_formatted = loads_back;
}
