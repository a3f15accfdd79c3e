-- ===== src/SshPool/Connect.antt =====
-- How `connect` settles whom it dials and how it verifies them (src/relay_shell/sshpool.py), and
-- what the server reports of it (src/relay_shell/server.py).
use relay_shell.Prelude.{
  ℕ, ◌≤◌, ◌≡◌, refl, subst, Bool, true, false, not, ◌&&◌, ◌||◌, [], ◌∷◌, Option, none, some, Text,
  codes, Dict, ◌==◌, ltb, if◌then◌else◌, text_eq, partition, arith, Bool-cases, inl, inr,
}
use relay_shell.Notices.{lower}
use relay_shell.Inventory.{HostSpec, resolve, knows, or_else}
use relay_shell.SshPool.{
  check_ssh_tokens, check_jump, conn_key, passes, is_host_token, is_user_token,
}

-- The keyword arguments of `connect`, where an empty text and the port 0 are not given.
pub record Kwargs : Type 0 where
  pub user : Text
  pub port : ℕ
  pub key_path : Text
  pub known_hosts : Text
  pub jump : Text

-- The settings it reads.
pub record Settings : Type 0 where
  pub ssh_known_hosts : Text
  pub ssh_allow_weaker_known_hosts : Bool

-- What it comes to dial.
pub record Dial : Type 0 where
  pub hostname : Text
  pub user : Text
  pub port : ℕ
  pub key_path : Text
  pub mode : Text
  pub jump : Text

pub data Plan : Type 0 where
  bad_token : Plan
  weaker : Plan
  dials : Dial → Plan

-- `a or b or c` of texts, and of numbers.
unfoldable pub or_text : Text → Text → Text
or_text [] b = b
or_text (c ∷ a) b = c ∷ a

unfoldable pub or_number : ℕ → ℕ → ℕ
or_number a b = if a == 0 then b else a

unfoldable pub weakness : Text → ℕ
unfolding text_eq
weakness mode =
    if text_eq mode (codes "accept-new") then 1 else if text_eq mode (codes "ignore") then 2 else 0

unfoldable pub is_given : Text → Bool
is_given [] = false
is_given (c ∷ s) = true

-- The user of a passthrough target `user@host`.
unfoldable pub target_user : Text → Option Text
unfolding partition
target_user target = let parts = partition 64 target in if parts.1 then some parts.0 else none

unfoldable pub tokens_pass : Bool → HostSpec → Text → Kwargs → Bool
unfolding check_ssh_tokens check_jump target_user is_given
tokens_pass known spec target kw =
    (known || check_ssh_tokens (some spec.hostname) (target_user target))
    && (not (is_given kw.user) || check_ssh_tokens none (some kw.user))
    && (not (is_given kw.jump) || check_jump kw.jump)

unfoldable pub is_weaker : Settings → Text → Bool
unfolding is_given lower weakness
is_weaker settings known_hosts =
    is_given known_hosts
    && not settings.ssh_allow_weaker_known_hosts
    && ltb (weakness settings.ssh_known_hosts) (weakness (lower known_hosts))

unfoldable pub effective_mode : Settings → HostSpec → Text → Text
unfolding or_text or_else lower
effective_mode settings spec known_hosts =
    lower (or_text known_hosts (or_text (or_else spec.known_hosts []) settings.ssh_known_hosts))

unfoldable pub dial_of : Settings → HostSpec → Kwargs → Dial
unfolding or_text or_else or_number effective_mode
dial_of settings spec kw = record {
  hostname = spec.hostname;
  user = or_text kw.user (or_else spec.user []);
  port = or_number kw.port (or_else spec.port 0);
  key_path = or_text kw.key_path (or_else spec.identity_file []);
  mode = effective_mode settings spec kw.known_hosts;
  jump = or_text kw.jump (or_else spec.jump []);
}

unfoldable pub plan_for : Bool → HostSpec → Settings → Text → Kwargs → Plan
unfolding tokens_pass is_weaker dial_of
plan_for known spec settings target kw =
    if not (tokens_pass known spec target kw)
    then bad_token
    else if is_weaker settings kw.known_hosts
    then weaker
    else dials (dial_of settings spec kw)

-- `connect` up to the sweep of its cache.
unfoldable pub plan_connect : Dict HostSpec → Settings → Text → Kwargs → Plan
unfolding plan_for resolve knows
plan_connect hosts settings target kw =
    plan_for (knows hosts target) (resolve hosts target) settings target kw

unfoldable pub key_of : Dial → Text
unfolding conn_key
key_of d = conn_key d.hostname d.user d.port d.mode d.key_path d.jump

-- `Relay.connect_kwargs`, whose timeout overlay is left out.
unfoldable pub connect_kwargs : Text → ℕ → Text → Text → Text → Kwargs
connect_kwargs user port key_path known_hosts jump = record {
  user = user;
  port = port;
  key_path = key_path;
  known_hosts = known_hosts;
  jump = jump;
}

-- `Relay.effective_known_hosts`
unfoldable pub effective_known_hosts : Dict HostSpec → Settings → Text → Text → Text
unfolding or_text or_else lower resolve
effective_known_hosts hosts settings host known_hosts = lower (
    or_text known_hosts
      (or_text (or_else (resolve hosts host).known_hosts []) settings.ssh_known_hosts))

-- What a caller passes, the user in front of the host of a target that is not in the inventory
-- included, is a plain token where it could name another command, and weakens the verification only
-- where the server allows it.
abbrev pub IsGuarded : Dict HostSpec → Settings → Text → Kwargs → Dial → Type 0
IsGuarded hosts settings target kw d =
    (knows hosts target ≡ false
      → (is_host_token d.hostname ≡ true)
        × ((u : Text) → target_user target ≡ some u → is_user_token u ≡ true))
    × (is_given kw.user ≡ true → is_user_token d.user ≡ true)
    × (is_given kw.jump ≡ true → check_jump d.jump ≡ true)
    × (is_given kw.known_hosts ≡ true
        → settings.ssh_allow_weaker_known_hosts ≡ false
        → weakness d.mode ≤ weakness settings.ssh_known_hosts)

or_text_given : (a b : Text) → is_given a ≡ true → or_text a b ≡ a
unfolding or_text is_given
or_text_given [] b h = cc
or_text_given (c ∷ a) b h = refl

plan_for-dials :
    (known : Bool) (spec : HostSpec) (settings : Settings) (target : Text) (kw : Kwargs) (d : Dial)
    → plan_for known spec settings target kw ≡ dials d
    → (tokens_pass known spec target kw ≡ true)
      × (is_weaker settings kw.known_hosts ≡ false)
      × (dial_of settings spec kw ≡ d)
unfolding plan_for
plan_for-dials known spec settings target kw d e =
    elim (Bool-cases (tokens_pass known spec target kw)) [
      | inl ok_tokens ↦ elim (Bool-cases (is_weaker settings kw.known_hosts)) [
        | inl low ↦ let wrong : weaker ≡ dials d = rw (ok_tokens, low) at e in cc
        | inr fine ↦
            let same : dials (dial_of settings spec kw) ≡ dials d = rw (ok_tokens, fine) at e in
            (ok_tokens, fine, cc)
      ]
      | inr bad ↦ let wrong : bad_token ≡ dials d = rw bad at e in cc
    ]

user_passes :
    (o : Option Text) (u : Text)
    → passes is_user_token o ≡ true
    → o ≡ some u
    → is_user_token u ≡ true
unfolding passes
user_passes none u h e = absurd cc
user_passes (some v) u h e = let same : v ≡ u = cc in rw same at h

tokens_pass-parts :
    (known : Bool) (spec : HostSpec) (target : Text) (kw : Kwargs)
    → tokens_pass known spec target kw ≡ true
    → (known ≡ false
        → (is_host_token spec.hostname ≡ true)
          × ((u : Text) → target_user target ≡ some u → is_user_token u ≡ true))
      × (is_given kw.user ≡ true → is_user_token kw.user ≡ true)
      × (is_given kw.jump ≡ true → check_jump kw.jump ≡ true)
unfolding tokens_pass check_ssh_tokens passes
tokens_pass-parts known spec target kw h = (
  λ k. (ground arith, λ u e. user_passes (target_user target) u (unfold passes in ground arith) e),
  λ u. ground arith,
  λ j. ground arith,
)

is_weaker-le :
    (settings : Settings) (known_hosts : Text)
    → is_weaker settings known_hosts ≡ false
    → is_given known_hosts ≡ true
    → settings.ssh_allow_weaker_known_hosts ≡ false
    → weakness (lower known_hosts) ≤ weakness settings.ssh_known_hosts
unfolding is_weaker
is_weaker-le settings known_hosts h given strict = ground arith

IsGuarded-dial :
    (hosts : Dict HostSpec) (settings : Settings) (target : Text) (kw : Kwargs)
    → tokens_pass (knows hosts target) (resolve hosts target) target kw ≡ true
    → is_weaker settings kw.known_hosts ≡ false
    → IsGuarded hosts settings target kw (dial_of settings (resolve hosts target) kw)
unfolding dial_of effective_mode
IsGuarded-dial hosts settings target kw pass fine =
    let spec = resolve hosts target in
    let (host, user, jump) = tokens_pass-parts (knows hosts target) spec target kw pass in
    (
      host,
      λ g. rw (or_text_given kw.user (or_else spec.user []) g) (user g),
      λ g. rw (or_text_given kw.jump (or_else spec.jump []) g) (jump g),
      λ g strict.
          rw
            (or_text_given kw.known_hosts
              (or_text (or_else spec.known_hosts []) settings.ssh_known_hosts) g)
            (is_weaker-le settings kw.known_hosts fine g strict),
    )

-- A connection is dialed only with tokens and a verification that the caller may ask for, and the
-- mode that the server puts into the audit record for the call is the one that is dialed with.
pub plan_connect-IsGuarded :
    (hosts : Dict HostSpec) (settings : Settings) (target : Text) (kw : Kwargs) (d : Dial)
    → plan_connect hosts settings target kw ≡ dials d
    → IsGuarded hosts settings target kw d
      × (d.mode ≡ effective_known_hosts hosts settings target kw.known_hosts)
unfolding plan_connect
plan_connect-IsGuarded hosts settings target kw d e =
    let (pass, fine, same) =
      plan_for-dials (knows hosts target) (resolve hosts target) settings target kw d e in
    (
      subst (IsGuarded hosts settings target kw) same
          (IsGuarded-dial hosts settings target kw pass fine),
      subst (λ x. x.mode ≡ effective_known_hosts hosts settings target kw.known_hosts) same
          (unfold dial_of effective_mode effective_known_hosts in refl),
    )
