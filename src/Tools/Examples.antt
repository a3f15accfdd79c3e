-- ===== src/Tools/Examples.antt =====
-- The tools at concrete inputs.
use relay_shell.Prelude.{
  ◌≡◌, ◌⊎◌, ◌||◌, Text, Bool, refl, true, false, [], ◌∷◌, Option, none, some, codes, pos,
  if◌then◌else◌, text_eq, contains, is_among, is_space,
}
use relay_shell.Policy.{Policy, Mode}
use relay_shell.Runner
use relay_shell.Runner.{Library, Ending, run}
use relay_shell.SshPool.Connect.{Settings}
use relay_shell.SshPool.Spec.{parse_forward_spec}
use relay_shell.Probe.{Addresses, canonical_ips}
use relay_shell.Probe.Builders.{forward_dhost}
use relay_shell.Tools.Shown.{Shows, is_remote, work-Shows}
use relay_shell.Probe.Dialed.{forward_dhost-dialed}
use relay_shell.Tools.{list_sessions, Request, Given, call_of, session_send}
use relay_shell.Tools.Remote.{Target, ssh_exec}
use relay_shell.Tools.Denied.{is_exec, remote-denied}
use relay_shell.Tools.Secret.{session_send_secret}

-- The loopback address in decimal, which the C library resolves.
abbrev addresses : Addresses
unfolding text_eq
addresses = record {
  address = λ t. none;
  resolved = λ t. if text_eq t (codes "2130706433") then some (codes "127.0.0.1") else none;
  decimal = λ c. none;
  is_digit = λ c. false;
}

decimal_address : canonical_ips addresses (codes "2130706433") ≡ some (codes "127.0.0.1" ∷ [])
unfolding canonical_ips
decimal_address = refl

abbrev library : Library
library = record {
  dumps = λ args. [];
  sha256_hex = λ t. t;
  patterns = record {
    matches_tier3 = λ t. false;
    matches_tier2 = λ t. false;
    priv_esc = λ t. false;
    priv_esc_eval_hint = λ t. false;
    blank_readers = λ t. t;
  };
  redact_args = λ args. args;
  with_notices = λ t ns. none;
}

abbrev settings : Runner.Settings
settings = record {
  max_input = 100;
  max_output_hard = 4096;
  max_timeout = 60;
  default_timeout = pos 30;
  audit_intent = true;
  unsafe_notices = true;
}

abbrev ssh : Settings
ssh = record { ssh_known_hosts = codes "strict"; ssh_allow_weaker_known_hosts = true }

-- A deny list of two alternatives.
abbrev denies : Text → Bool
denies t = contains (codes "127.0.0.1") t || contains (codes "169.254.") t

abbrev no_loopback : Policy
no_loopback = record { mode = Mode.open_mode; deny = some denies; allow = none }

abbrev loopback : Target
loopback = record {
  host = codes "2130706433";
  user = [];
  port = 0;
  key_path = [];
  known_hosts = [];
  jump = [];
}

abbrev given : Given
given = record {
  request_id = codes "r";
  client_id = codes "c";
  ending = Ending.cancelled;
  consume_at = 0;
  plan_at = 0;
  token = [];
}

abbrev world : Runner.World
world = record { broker = none; records = []; labels = []; executed = 7; at_work = [] }

abbrev or_empty : Option Request → Request
or_empty none = record {
  tool = [];
  audit_args = [];
  policy_text = [];
  max_output = pos 0;
  work = list_sessions;
}
or_empty (some r) = r

abbrev asked : Request
asked = or_empty (ssh_exec addresses [] ssh settings loopback (codes "id") (pos 0))

remote-denied_example :
    (run library settings no_loopback (call_of asked given) world).0.executed ≡ 7
unfolding ssh_exec canonical_ips is_among is_space text_eq
remote-denied_example =
    remote-denied addresses [] ssh library settings no_loopback loopback asked given world
      (codes "127.0.0.1") (codes "127.0.0.1" ∷ []) denies refl (λ t h. rw h refl)
      ((λ e. cc), (refl, (refl, (refl, (refl, (refl, (refl, (refl, (refl, (refl, tt))))))))))
      (λ e. cc) (is_exec (codes "id") (pos 0) refl) refl refl

work-Shows_example : Shows asked
unfolding ssh_exec canonical_ips is_among is_space text_eq
work-Shows_example =
    (work-Shows addresses [] ssh settings asked).0
      (is_remote loopback (is_exec (codes "id") (pos 0) refl))

forward_dhost-dialed_example :
    (codes "D" ≡ codes "L") ⊎ (forward_dhost (codes "l:80:db:5432") ≡ codes "db")
unfolding parse_forward_spec
forward_dhost-dialed_example =
    forward_dhost-dialed (λ c. none) (codes "l:80:db:5432") (codes "L") (codes "db") (pos 80)
      (pos 5432) refl

session_send_secret_example :
    (session_send (λ t. t) true true (codes "s") (codes "hunter2") true []).audit_args
    ≡ (session_send (λ t. t) true true (codes "s") (codes "letmein") true []).audit_args
session_send_secret_example =
    (session_send_secret (λ t. t) true (codes "s") (codes "hunter2") (codes "letmein") [] true
      refl).0
