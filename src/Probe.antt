-- ===== src/Probe.antt =====
-- The policy texts of the tools (the builders in src/relay_shell/server.py): what an executor will
-- see, with the addresses that its hosts spell in another way. The standard library's readings of an
-- address, and the digits of Unicode beyond ASCII, are arguments.
pub mod Ips
pub mod Builders
pub mod Dialed
use relay_shell.Prelude.{
  ℕ, ◌-◌, Bool, true, false, ◌&&◌, ◌||◌, List, [], ◌∷◌, ◌++◌, Option, none, some, Text, codes, ltb,
  leb, ◌==◌, if◌then◌else◌, length, take, strip, contains, starts_with, is_among, text_eq, split_on,
  words, partition, rpartition, parse_int, ℤ, pos, negsuc,
}
use relay_shell.Notices.{lower}
use relay_shell.SshPool.Spec.{upper}

-- `ipaddress.ip_address` as the text of the address and that of its `ipv4_mapped`,
-- `inet_ntoa(inet_aton(t))`, and for a character beyond ASCII its decimal value and whether
-- `str.isdigit` takes it.
pub record Addresses : Type 0 where
  pub address : Text → Option (Text × Option Text)
  pub resolved : Text → Option Text
  pub decimal : ℕ → Option ℕ
  pub is_digit : ℕ → Bool

unfoldable pub is_bracket : ℕ → Bool
is_bracket c = c == 91 || c == 93

unfoldable pub lstrip_brackets : Text → Text
unfolding is_bracket
lstrip_brackets [] = []
lstrip_brackets (c ∷ s) = let rest = lstrip_brackets s in if is_bracket c then rest else c ∷ s

unfoldable pub rstrip_brackets : Text → Text
unfolding is_bracket
rstrip_brackets [] = []
rstrip_brackets (c ∷ s) =
    let rest = rstrip_brackets s in if is_bracket c && text_eq rest [] then [] else c ∷ rest

unfoldable pub dedupe : List Text → List Text → List Text
unfolding is_among
dedupe found [] = found
dedupe found (t ∷ ts) = dedupe (if is_among t found then found else found ++ t ∷ []) ts

unfoldable pub address_forms : Option (Text × Option Text) → List Text
address_forms none = []
address_forms (some (s, none)) = s ∷ []
address_forms (some (s, some mapped)) = s ∷ mapped ∷ []

unfoldable pub resolved_forms : Option Text → List Text
resolved_forms none = []
resolved_forms (some s) = s ∷ []

unfoldable pub exceeds : ℕ → ℤ → Bool
exceeds n (pos m) = ltb n m
exceeds n (negsuc m) = false

unfoldable pub exceeds_or : ℕ → Option ℤ → Option Bool
unfolding exceeds
exceeds_or n none = none
exceeds_or n (some i) = some (exceeds n i)

unfoldable pub and_resolved : List Text → Option Text → Option Bool → Option (List Text)
unfolding dedupe resolved_forms
and_resolved found form none = none
and_resolved found form (some true) = some (dedupe [] (found ++ resolved_forms form))
and_resolved found form (some false) = some (dedupe [] found)

module _ (A : Addresses) where
  unfoldable pub all_digits : Text → Bool
  all_digits [] = true
  all_digits (c ∷ s) = (if ltb c 128 then leb 48 c && leb c 57 else A.is_digit c) && all_digits s

  -- `looks_ipish`; `none` is the `ValueError` of `int`.
  unfoldable pub looks_ipish : Text → Option Bool
  unfolding contains starts_with lower all_digits exceeds_or parse_int text_eq
  looks_ipish t =
      if contains (codes ".") t || starts_with (codes "0x") (lower t)
      then some true
      else if all_digits t
      then exceeds_or 65535 (parse_int A.decimal t)
      else some false

  unfoldable pub forms_of : Text → Option (List Text)
  unfolding looks_ipish address_forms and_resolved
  forms_of [] = some []
  forms_of (c ∷ s) =
      and_resolved (address_forms (A.address (c ∷ s))) (A.resolved (c ∷ s)) (looks_ipish (c ∷ s))

  -- `_canonical_ips`
  unfoldable pub canonical_ips : Text → Option (List Text)
  unfolding forms_of strip lstrip_brackets rstrip_brackets
  canonical_ips token = forms_of (rstrip_brackets (lstrip_brackets (strip token)))

unfoldable pub add_ips : Text → Text → List Text → List Text → List Text
unfolding text_eq is_among contains
add_ips text tok [] extra = extra
add_ips text tok (ip ∷ ips) extra =
    add_ips text tok ips
      (if text_eq ip tok || is_among ip extra || contains ip text then extra else extra ++ ip ∷ [])

-- `sep.join` of a separator of one character.
unfoldable pub join_with : ℕ → List Text → Text
join_with sep [] = []
join_with sep (t ∷ []) = t
join_with sep (t ∷ u ∷ ts) = t ++ sep ∷ join_with sep (u ∷ ts)

unfoldable pub appended : Text → Option (List Text) → Option Text
unfolding join_with
appended text none = none
appended text (some []) = some text
appended text (some (ip ∷ ips)) = some (text ++ 32 ∷ join_with 32 (ip ∷ ips))

module _ (A : Addresses) where
  unfoldable pub and_ips : Text → Text → Option (List Text) → List Text → Option (List Text)
  unfolding add_ips
  and_ips text tok none extra = none
  and_ips text tok (some ips) extra = some (add_ips text tok ips extra)

  -- The loop over the tokens.
  unfoldable pub collect_ips : Text → List Text → Option (List Text) → Option (List Text)
  unfolding and_ips canonical_ips
  collect_ips text toks none = none
  collect_ips text [] (some extra) = some extra
  collect_ips text (tok ∷ toks) (some extra) =
      collect_ips text toks (and_ips text tok (canonical_ips A tok) extra)

  -- `_with_canonical_ips`
  unfoldable pub with_canonical_ips : Text → List Text → Option Text
  unfolding appended collect_ips
  with_canonical_ips text toks = appended text (collect_ips text (take 128 toks) (some []))
