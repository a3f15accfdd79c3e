-- ===== src/SshPool.antt =====
-- The SSH connection pool (src/relay_shell/sshpool.py): the tokens a caller may pass and the key of
-- a cached connection. The cache, the forwards, the host keys and the output of a command are in
-- the modules below this one.
pub mod Keys
pub mod Cache
pub mod Forwards
pub mod Steps
pub mod Flight
pub mod Single
pub mod Pins
pub mod Counted
pub mod Safe
pub mod Evictions
pub mod Reaper
pub mod Limit
pub mod KnownHosts
pub mod Spec
pub mod Drain
pub mod Connect
mod Examples
use relay_shell.Prelude.{
  ℕ, ◌+◌, Bool, true, false, ◌&&◌, ◌||◌, List, [], ◌∷◌, ◌++◌, Option, none, some, Text, codes, ltb,
  leb, ◌==◌, if◌then◌else◌, length, split_on, rpartition, show_nat,
}

unfoldable pub is_alnum : ℕ → Bool
is_alnum c = (leb 48 c && leb c 57) || (leb 65 c && leb c 90) || (leb 97 c && leb c 122)

-- The classes of `_HOST_TOKEN_RE`: its first character, and `._-:%[]` besides.
unfoldable pub is_host_first : ℕ → Bool
unfolding is_alnum
is_host_first c = is_alnum c || c == 95 || c == 91

unfoldable pub is_host_char : ℕ → Bool
unfolding is_alnum
is_host_char c =
    is_alnum c || c == 46 || c == 95 || c == 45 || c == 58 || c == 37 || c == 91 || c == 93

-- The classes of `_USER_TOKEN_RE`.
unfoldable pub is_user_first : ℕ → Bool
unfolding is_alnum
is_user_first c = is_alnum c || c == 95

unfoldable pub is_user_char : ℕ → Bool
unfolding is_alnum
is_user_char c = is_alnum c || c == 46 || c == 95 || c == 45

unfoldable pub all_chars : (ℕ → Bool) → Text → Bool
all_chars p [] = true
all_chars p (c ∷ s) = p c && all_chars p s

-- `fullmatch` of one character of a class and at most `most` of another.
unfoldable pub token : (ℕ → Bool) → (ℕ → Bool) → ℕ → Text → Bool
unfolding all_chars
token first other most [] = false
token first other most (c ∷ s) = first c && all_chars other s && leb (length s) most

unfoldable pub is_host_token : Text → Bool
unfolding is_host_first is_host_char token
is_host_token s = token is_host_first is_host_char 254 s

unfoldable pub is_user_token : Text → Bool
unfolding is_user_first is_user_char token
is_user_token s = token is_user_first is_user_char 127 s

unfoldable pub passes : (Text → Bool) → Option Text → Bool
passes p none = true
passes p (some s) = p s

-- `_check_ssh_tokens`; `false` is its `RelayError`.
unfoldable pub check_ssh_tokens : Option Text → Option Text → Bool
unfolding passes is_host_token is_user_token
check_ssh_tokens host user = passes is_host_token host && passes is_user_token user

unfoldable pub check_hop : Text × Bool × Text → Bool
unfolding check_ssh_tokens
check_hop (user, sep, host) = check_ssh_tokens (some host) (if sep then some user else none)

unfoldable pub check_hops : List Text → Bool
unfolding check_hop rpartition
check_hops [] = true
check_hops (hop ∷ hops) = check_hop (rpartition 64 hop) && check_hops hops

-- `_check_jump`
unfoldable pub check_jump : Text → Bool
unfolding check_hops split_on
check_jump jump = check_hops (split_on 44 jump)

-- `port or 22`, where 0 and no port are one.
unfoldable pub port_or_22 : ℕ → ℕ
port_or_22 port = if port == 0 then 22 else port

-- `_conn_key`; an absent user is the empty text and an absent port is 0.
unfoldable pub conn_key : Text → Text → ℕ → Text → Text → Text → Text
unfolding port_or_22 show_nat
conn_key host user port mode key_path jump =
    user
    ++ 64
      ∷ (host
          ++ 58 ∷ (show_nat (port_or_22 port) ++ 124 ∷ (mode ++ 124 ∷ (key_path ++ 124 ∷ jump))))
