-- ===== src/SshPool/Keys.antt =====
-- The key of a cached connection (`_conn_key` of src/relay_shell/sshpool.py).
use relay_shell.Prelude.{
  ℕ, ◌≤◌, ◌≡◌, ◌≢◌, sym, ◌∙◌, true, [], ◌∷◌, ◌++◌, Text, All-append, append_assoc, IsFree,
  split_first, split_last, IsDigits, show_nat, show_nat-IsDigits, show_nat-inj, arith, and_parts,
}
use relay_shell.SshPool.{
  is_host_char, is_host_token, is_host_first, is_alnum, token, all_chars, conn_key, port_or_22,
}

IsFree-IsDigits : (c : ℕ) (s : Text) → 57 ≤ c → c ≢ 57 → IsDigits s → IsFree c s
IsFree-IsDigits c [] h n d = tt
IsFree-IsDigits c (x ∷ s) h n d = (λ e. ground arith, IsFree-IsDigits c s h n d.1)

-- The part of the key that names the peer.
abbrev endpoint : Text → ℕ → Text
endpoint host port = host ++ 58 ∷ show_nat (port_or_22 port)

port_free : (port : ℕ) → IsFree 58 (show_nat (port_or_22 port))
port_free port =
    IsFree-IsDigits 58 _ (omega arith) (λ e. ground arith) (show_nat-IsDigits (port_or_22 port))

endpoint-IsFree : (host : Text) (port : ℕ) → IsFree 124 host → IsFree 124 (endpoint host port)
endpoint-IsFree host port h =
    All-append (λ d. d ≢ 124) host _ h
      (
        λ e. ground arith,
        IsFree-IsDigits 124 _ (omega arith) (λ e. ground arith)
            (show_nat-IsDigits (port_or_22 port)),
      )

endpoint-append :
    (host : Text) (port : ℕ) (rest : Text)
    → host ++ 58 ∷ (show_nat (port_or_22 port) ++ rest) ≡ endpoint host port ++ rest
endpoint-append host port rest = sym (append_assoc host (58 ∷ show_nat (port_or_22 port)) rest)

-- Two targets with one key have the same user, host, port, mode, key file and jump chain, if their
-- users hold no `@` and their hosts, modes and jump chains no `|`.
pub conn_key-inj :
    (host other_host user other_user : Text) (port other_port : ℕ)
    (mode other_mode key_path other_key_path jump other_jump : Text)
    → IsFree 64 user
    → IsFree 64 other_user
    → IsFree 124 host
    → IsFree 124 other_host
    → IsFree 124 mode
    → IsFree 124 other_mode
    → IsFree 124 jump
    → IsFree 124 other_jump
    → conn_key host user port mode key_path jump
      ≡ conn_key other_host other_user other_port other_mode other_key_path other_jump
    → (user ≡ other_user)
      × (host ≡ other_host)
      × (port_or_22 port ≡ port_or_22 other_port)
      × (mode ≡ other_mode)
      × (key_path ≡ other_key_path)
      × (jump ≡ other_jump)
unfolding conn_key
conn_key-inj host host' user user' port port' mode mode' key key' jump jump' u u' h h' m m' j j' e =
    let (users, rest) = split_first 64 user user' _ _ u u' e in
    let (peers, terms) =
      split_first 124 (endpoint host port) (endpoint host' port') _ _ (endpoint-IsFree host port h)
        (endpoint-IsFree host' port' h')
        (sym (endpoint-append host port _) ∙ rest ∙ endpoint-append host' port' _) in
    let (hosts, ports) = split_last 58 host host' _ _ (port_free port) (port_free port') peers in
    let (modes, files) = split_first 124 mode mode' _ _ m m' terms in
    let (keys, jumps) = split_last 124 key key' jump jump' j j' files in
    (users, hosts, show_nat-inj _ _ ports, modes, keys, jumps)

is_host_char-ne : (c : ℕ) → is_host_char c ≡ true → (c ≢ 124) × (c ≢ 64) × (c ≢ 44)
unfolding is_host_char is_alnum
is_host_char-ne c h = (λ e. ground arith, λ e. ground arith, λ e. ground arith)

all_chars-IsFree : (s : Text) → all_chars is_host_char s ≡ true → IsFree 124 s
unfolding all_chars
all_chars-IsFree [] h = tt
all_chars-IsFree (c ∷ s) h =
    let (here, rest) = and_parts (is_host_char c) (all_chars is_host_char s) h in
    ((is_host_char-ne c here).0, all_chars-IsFree s rest)

-- A host that `_check_ssh_tokens` lets through holds no separator of the key.
pub is_host_token-IsFree : (s : Text) → is_host_token s ≡ true → IsFree 124 s
unfolding is_host_token token is_host_first is_alnum
is_host_token-IsFree [] h = tt
is_host_token-IsFree (c ∷ s) h = (λ e. ground arith, all_chars-IsFree s (ground arith))
