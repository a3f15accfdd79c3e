-- ===== src/Redaction.antt =====
-- `redact` of src/relay_shell/redaction.py. A substitution of
-- a compiled pattern of src/relay_shell/patterns.py is a function on text, and a `none` is an
-- IndexError out of the table of hints.
pub mod Gates
pub mod Scrub
pub mod Stands
pub mod Clean
mod Examples
use relay_shell.Prelude.{
  ℕ, zero, suc, ◌+◌, ◌-◌, Bool, true, false, ◌&&◌, ◌||◌, List, [], ◌∷◌, ◌++◌, Option, none, some,
  Text, codes, text_eq, if◌then◌else◌, ltb, ◌==◌, length, take, get_elem?, any_of, contains,
  show_nat,
}
use relay_shell.Notices.{lower}

infixl 5 ◌>>=◌
abbrev pub ◌>>=◌ {ℓ κ} : {A : Type ℓ} {B : Type κ} → Option A → (A → Option B) → Option B
none >>= f = none
some a >>= f = f a

-- An entry of a table: the identity of the compiled pattern, and `pat.sub(repl, text)`.
pub record Rule : Type 0 where
  pub pattern : ℕ
  pub sub : Text → Text

-- The tables of the patterns module, and the one it held when the redaction module was imported.
pub record Tables : Type 0 where
  pub original_prefix : List Rule
  pub prefix_patterns : List Rule
  pub command_scoped : List Rule
  pub whole_match : List Rule
  pub url_creds : Text → Text
  pub url_token_userinfo : Text → Text
  pub is_mysql_family : Text → Bool
  pub mysql_compact : Text → Text

abbrev pub whole_match_hints : List Text
whole_match_hints =
    codes "-----BEGIN "
    ∷ codes "gith_pat_"
    ∷ codes "github_pat_"
    ∷ codes "ghp_"
    ∷ codes "gho_"
    ∷ codes "ghu_"
    ∷ codes "ghs_"
    ∷ codes "ghr_"
    ∷ codes "sk-"
    ∷ codes "hf_"
    ∷ codes "AKIA"
    ∷ codes "xox"
    ∷ codes "hooks.slack.com/services/"
    ∷ codes "AIza"
    ∷ codes "ya29."
    ∷ codes "sk_"
    ∷ codes "rk_"
    ∷ codes "glpat-"
    ∷ codes "npm_"
    ∷ codes "pypi-"
    ∷ codes "ey"
    ∷ []

abbrev pub keyword_hints : List Text
keyword_hints =
    codes "key"
    ∷ codes "secret"
    ∷ codes "token"
    ∷ codes "password"
    ∷ codes "passwd"
    ∷ codes "pwd"
    ∷ codes "credential"
    ∷ []

abbrev pub flag_hints : List Text
flag_hints =
    codes "password"
    ∷ codes "passwd"
    ∷ codes "pwd"
    ∷ codes "passphrase"
    ∷ codes "secret"
    ∷ codes "token"
    ∷ codes "key"
    ∷ codes "credential"
    ∷ []

abbrev pub prefix_hints : List (List Text)
prefix_hints =
    (codes "authorization" ∷ [])
    ∷ (codes "bearer" ∷ [])
    ∷ keyword_hints
    ∷ keyword_hints
    ∷ (codes "secret" ∷ [])
    ∷ (codes "key" ∷ [])
    ∷ (codes "sig=" ∷ [])
    ∷ flag_hints
    ∷ (codes "convertto-securestring" ∷ [])
    ∷ []

-- `any(hint in text for hint in hints)`
abbrev pub has_hint : List Text → Text → Bool
has_hint hints s = any_of (λ (h : Text). contains h s) hints

-- `str.isascii`
unfoldable pub is_ascii : Text → Bool
is_ascii [] = true
is_ascii (c ∷ s) = ltb c 128 && is_ascii s

unfoldable pub is_builtin : List Rule → ℕ → Rule → Bool
is_builtin original i r = elim (get_elem? original i) [
  | none ↦ false
  | some o ↦ r.pattern == o.pattern
]

-- One round of the loop over the prefix rules. The text is lowered only where it is ASCII.
unfoldable pub apply_rule : List Rule → ℕ → Rule → Text → Option Text
unfolding is_builtin is_ascii lower any_of contains
apply_rule original i r out =
    if is_builtin original i r && is_ascii out
    then (do
      hints ← get_elem? prefix_hints i
      some (if has_hint hints (lower out) then r.sub out else out))
    else some (r.sub out)

unfoldable pub apply_rules : List Rule → ℕ → List Rule → Text → Option Text
unfolding apply_rule
apply_rules original i [] out = some out
apply_rules original i (r ∷ rs) out = do
  next ← apply_rule original i r out
  apply_rules original (suc i) rs next

unfoldable pub sub_all : List Rule → Text → Text
sub_all [] s = s
sub_all (r ∷ rs) s = sub_all rs (r.sub s)

unfoldable pub redact_whole : List Rule → Text → Text
unfolding sub_all any_of contains
redact_whole rules s = if has_hint whole_match_hints s then sub_all rules s else s

unfoldable pub redact : Tables → Text → Option Text
unfolding apply_rules sub_all redact_whole
redact t text = do
  out ← apply_rules t.original_prefix 0 t.prefix_patterns (t.url_token_userinfo (t.url_creds text))
  let bare = redact_whole t.whole_match (sub_all t.command_scoped out)
  some (if t.is_mysql_family bare then t.mysql_compact bare else bare)
