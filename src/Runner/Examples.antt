-- ===== src/Runner/Examples.antt =====
-- Calls of the runner at concrete inputs.
use relay_shell.Prelude.{
  ◌⊎◌, ℕ, ◌≡◌, ◌≢◌, refl, true, false, [], ◌∷◌, none, some, codes, text_eq, arith, is_among, pos,
  get, put, ◌≤◌,
}
use relay_shell.Broker.{init, set_armed}
use relay_shell.Broker.History.{History}
use relay_shell.Broker.History.{run as serve}
use relay_shell.Broker.Confirmation.{Released}
use relay_shell.Policy.Continuation.{strip_line_continuations}
use relay_shell.Broker.Store.{sweep_entries}
use relay_shell.Broker.History.{step}
use relay_shell.Policy.{max_tier, Tier, Mode, Policy, check, assess, read_only_tools}
use relay_shell.Policy.{PolicyDecision, Reason, Basis}
use relay_shell.Util.{head_bytes}
use relay_shell.Runner.{
  Settings, Library, Call, Ending, World, run, confirm_op_key, is_irreversible,
}
use relay_shell.Runner.Accounts.{Accounted, run-Accounted}
use relay_shell.Runner.Gate.{executed_iff, decision}
use relay_shell.Runner.Confirmed.{
  Events, plans_call, confirms, history, WasAsked, Collision, executed-WasAsked,
}
use relay_shell.Runner.OpKey.{op_hash-inj}

-- `wipe` is irreversible, nothing else matches, and the digest is the text itself.
abbrev library : Library
unfolding text_eq
library = record {
  dumps = λ args. elim args [ [] ↦ codes "{}" | (k, v) ∷ rest ↦ v ];
  sha256_hex = λ t. t;
  patterns = record {
    matches_tier3 = λ t. text_eq t (codes "wipe");
    matches_tier2 = λ t. false;
    priv_esc = λ t. false;
    priv_esc_eval_hint = λ t. false;
    blank_readers = λ t. t;
  };
  redact_args = λ args. args;
  with_notices = λ t ns. none;
}

abbrev settings : Settings
settings = record {
  max_input = 100;
  max_output_hard = 4096;
  max_timeout = 60;
  default_timeout = pos 30;
  audit_intent = true;
  unsafe_notices = true;
}

abbrev policy : Policy
policy = record { mode = Mode.open_mode; deny = none; allow = none }

abbrev wipe : Call
wipe = record {
  tool = codes "sh";
  request_id = codes "r1";
  client_id = codes "c";
  audit_args = [];
  policy_text = codes "wipe";
  max_output = pos 2000;
  ending = Ending.finished (codes "gone") (some (pos 0));
  min_tier = Tier.read_only;
  extra_notices = [];
  json_notices = false;
  consume_at = 30;
  plan_at = 31;
  token = codes "t2";
}

abbrev events : Events
events = (20, confirms (codes "t1") (codes "c")) ∷ (10, plans_call (codes "t1") wipe) ∷ []

abbrev served : History
served = history library settings policy events

abbrev world : World
unfolding serve
world = record {
  broker = some (serve library.sha256_hex (init 60 4) served);
  records = [];
  labels = [];
  executed = 0;
  at_work = [];
}

run-Accounted_example : Accounted true world (run library settings policy wipe world).0
run-Accounted_example = run-Accounted library settings policy wipe world

wipe_runs : (run library settings policy wipe world).0.executed ≡ 1
unfolding run world max_tier is_among read_only_tools strip_line_continuations sweep_entries step
    get init put set_armed
wipe_runs = refl

wipe_ran : (run library settings policy wipe world).0.executed ≢ world.executed
unfolding world
wipe_ran h = omega (arith, wipe_runs, h)

wipe-is_irreversible : is_irreversible (decision library settings policy wipe).tier ≡ true
unfolding check max_tier is_among read_only_tools strip_line_continuations is_irreversible assess
wipe-is_irreversible = refl

executed_iff_example : (decision library settings policy wipe).allowed ≡ true
executed_iff_example = ((executed_iff library settings policy wipe world).0 wipe_ran).1

no_nul : (n : ℕ) (h : 1 ≤ n) → n ≢ 0
no_nul n h e = omega arith

executed-WasAsked_example :
    (used : Released library.sha256_hex 60 4 served 30
      (codes "sh")
      (confirm_op_key library settings policy (codes "wipe") [])
      (codes "c"))
    × (WasAsked library settings policy used.token wipe events ⊎ Collision library)
unfolding world library
executed-WasAsked_example =
    executed-WasAsked library settings policy 60 4 events wipe world
      (
        (
          (no_nul _ (omega arith), (no_nul _ (omega arith), tt)),
          (no_nul _ (omega arith), (no_nul _ (omega arith), tt)),
        ),
        tt,
      )
      (
        (no_nul _ (omega arith), (no_nul _ (omega arith), tt)),
        (no_nul _ (omega arith), (no_nul _ (omega arith), tt)),
      )
      refl wipe-is_irreversible wipe_ran

op_hash-inj_example :
    (codes "sh" ≡ codes "sh") × (codes "ls" ≡ codes "ls") × (library.dumps [] ≡ library.dumps [])
unfolding library
op_hash-inj_example =
    op_hash-inj library settings policy (codes "sh") (codes "sh") (codes "ls") (codes "ls") [] []
      (no_nul _ (omega arith), (no_nul _ (omega arith), tt))
      (no_nul _ (omega arith), (no_nul _ (omega arith), tt))
      (no_nul _ (omega arith), (no_nul _ (omega arith), tt))
      (no_nul _ (omega arith), (no_nul _ (omega arith), tt)) (λ e. e) refl

abbrev quiet : PolicyDecision
quiet = record {
  allowed = true;
  tier = Tier.reversible;
  reason = Reason.permitted;
  basis = Basis.default_basis;
}

-- `aé` cut behind its second byte.
head_splits : head_bytes 2 (97 ∷ 233 ∷ []) ≡ 97 ∷ 65533 ∷ []
unfolding head_bytes
head_splits = refl
