-- ===== src/SshPool/KnownHosts.antt =====
-- Trust on first use (`_known_hosts_arg`, `_host_is_known`, `_append_known_host` and
-- `_persist_host_key` of src/relay_shell/sshpool.py). The known_hosts file is its text, and what
-- asyncssh makes of it is an argument.
pub mod Trust
use relay_shell.Prelude.{
  ℕ, Bool, true, false, not, ◌&&◌, ◌||◌, List, [], ◌∷◌, ◌++◌, Option, none, some, Text, codes, ◌==◌,
  if◌then◌else◌, is_among, text_eq, split_on, words, splitlines, any_of, contains, ends_with,
  show_nat,
}

-- `_known_host_pattern`; an absent port is 0.
unfoldable pub known_host_pattern : Text → ℕ → Text
unfolding show_nat
known_host_pattern hostname port =
    if port == 0 || port == 22 then hostname else 91 ∷ (hostname ++ 93 ∷ 58 ∷ show_nat port)

unfoldable pub is_comment : Text → Bool
is_comment [] = false
is_comment (c ∷ s) = c == 35

unfoldable pub field_names : Text → List Text → Bool
unfolding is_comment split_on is_among
field_names pattern [] = false
field_names pattern (field ∷ fields) =
    not (is_comment field) && is_among pattern (split_on 44 field)

-- A line of the file whose host field holds the pattern.
unfoldable pub line_names : Text → Text → Bool
unfolding field_names words
line_names pattern line = field_names pattern (words line)

-- The file: absent, or what the match of asyncssh and the reading of the text give, where `none` is
-- an exception.
pub data KnownHosts : Type 0 where
  absent : KnownHosts
  present : Option Bool → Option Text → KnownHosts

unfoldable pub text_names : Text → Option Text → Bool
unfolding any_of line_names splitlines
text_names pattern none = true
text_names pattern (some text) = any_of (line_names pattern) (splitlines text)

-- `_host_is_known`
unfoldable pub host_is_known : KnownHosts → Text → ℕ → Bool
unfolding text_names known_host_pattern
host_is_known absent hostname port = false
host_is_known (present none text) hostname port = true
host_is_known (present (some true) text) hostname port = true
host_is_known (present (some false) text) hostname port =
    text_names (known_host_pattern hostname port) text

-- The line that is written for a key.
unfoldable pub host_line : Text → ℕ → Text → Text → Text
unfolding known_host_pattern
host_line hostname port algo b64 = known_host_pattern hostname port ++ 32 ∷ (algo ++ 32 ∷ b64)

-- `_append_known_host`: the text of the file behind it; an absent file is the empty text.
unfoldable pub append_known_host : Text → Text → Text → ℕ → Text → Text
unfolding contains ends_with text_eq host_line
append_known_host hostname algo b64 port existing =
    if contains b64 existing
    then existing
    else if text_eq existing [] || ends_with 10 existing
    then existing ++ (host_line hostname port algo b64 ++ 10 ∷ [])
    else existing ++ 10 ∷ (host_line hostname port algo b64 ++ 10 ∷ [])

unfoldable pub persist_words : Text → ℕ → List Text → Text → Text
unfolding append_known_host
persist_words hostname port (algo ∷ b64 ∷ rest) existing =
    append_known_host hostname algo b64 port existing
persist_words hostname port parts existing = existing

-- `_persist_host_key`, with the exported public key.
unfoldable pub persist_host_key : Text → Text → ℕ → Text → Text
unfolding persist_words words
persist_host_key blob hostname port existing = persist_words hostname port (words blob) existing

-- `_known_hosts_arg`: an unknown mode, the file to verify against, or no verification.
pub data Verification : Type 0 where
  bad_mode : Verification
  against : Text → Verification
  unverified : Verification

unfoldable pub known_hosts_arg : Text → Text → Bool → Verification
unfolding is_among text_eq
known_hosts_arg path mode known =
    if not (is_among mode (codes "strict" ∷ codes "accept-new" ∷ codes "ignore" ∷ []))
    then bad_mode
    else if text_eq mode (codes "strict") || (text_eq mode (codes "accept-new") && known)
    then against path
    else unverified
