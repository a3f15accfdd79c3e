-- ===== src/Runner.antt =====
-- One tool call through `Relay.run` (src/relay_shell/server.py): refusals, the confirmation gate,
-- the intent record, the work and its ending, the completion record and the metric.
pub mod Accounts
pub mod Gate
pub mod Confirmed
pub mod OpKey
mod Examples
use relay_shell.Prelude.{
  ℕ, zero, suc, ◌+◌, Bool, true, false, ◌&&◌, not, List, [], ◌∷◌, ◌++◌, Option, none, some, Text,
  codes, Dict, ltb, length, if◌then◌else◌, show_nat, show_int, ℤ,
}
use relay_shell.Broker.{Broker, Challenge, plan, consume}
use relay_shell.Policy.{Mode, Tier, rank, Patterns, Policy, PolicyDecision, Reason, classify, check}
use relay_shell.Notices.{tier_name, call_notices, attach_notices}
use relay_shell.Util.{clamp, truncate}
use Tier.{read_only, reversible, stateful, irreversible}
use Reason.{denied_by_list, readonly_refuses, allowed_by_list, guarded_refuses, permitted}

-- The settings that the runner reads.
pub record Settings : Type 0 where
  pub max_input : ℕ
  pub max_output_hard : ℕ
  pub max_timeout : ℕ
  pub default_timeout : ℤ
  pub audit_intent : Bool
  pub unsafe_notices : Bool

pub data Action : Type 0 where
  plain_action intent_action confirm_plan confirm_execute cancelled_action : Action

-- The arguments of one `audit.record` call.
pub record Record : Type 0 where
  pub tool : Text
  pub args : Dict Text
  pub output : Text
  pub exit_code : Option ℤ
  pub tier : ℕ
  pub request_id : Text
  pub client_id : Text
  pub denied : Bool
  pub action : Action

pub data Outcome : Type 0 where
  ok_outcome error_outcome denied_outcome confirm_required cancelled_outcome : Outcome

-- The labels of one `inc_tool_call`.
pub record Label : Type 0 where
  pub tool : Text
  pub tier : ℕ
  pub mode : Mode
  pub outcome : Outcome

-- How the awaited work ends. The text of an error is `fmt_exc` of it.
pub data Ending : Type 0 where
  finished : Text → Option ℤ → Ending
  failed : Text → Ending
  cancelled : Ending

-- What the call is given, with the clock readings and the token that the broker draws in it.
pub record Call : Type 0 where
  pub tool : Text
  pub request_id : Text
  pub client_id : Text
  pub audit_args : Dict Text
  pub policy_text : Text
  pub max_output : ℤ
  pub ending : Ending
  pub min_tier : Tier
  pub extra_notices : List Text
  pub json_notices : Bool
  pub consume_at : ℕ
  pub plan_at : ℕ
  pub token : Text

-- The state that the runner changes; `executed` counts the runs of `work`, and `at_work` is the trail
-- as it stood when the last of them began.
pub record World : Type 0 where
  pub broker : Option Broker
  pub records : List Record
  pub labels : List Label
  pub executed : ℕ
  pub at_work : List Record

pub data Result : Type 0 where
  returned : Text → Result
  raised : Result

-- The libraries that the runner calls: the JSON module, SHA-256, the regex tables, the redaction
-- of src/relay_shell/redaction.py and the notices inside a JSON object.
pub record Library : Type 0 where
  pub dumps : Dict Text → Text
  pub sha256_hex : Text → Text
  pub patterns : Patterns
  pub redact_args : Dict Text → Dict Text
  pub with_notices : Text → List Text → Option Text

unfoldable pub exec_timeout : Settings → ℤ → ℕ
unfolding clamp
exec_timeout s (ℤ.pos zero) = clamp s.default_timeout 1 s.max_timeout
exec_timeout s timeout = clamp timeout 1 s.max_timeout

unfoldable pub clamp_output : Settings → ℤ → ℕ
unfolding clamp
clamp_output s max_output = clamp max_output 1024 s.max_output_hard

unfoldable pub tier_text : Tier → Text
unfolding tier_name
tier_text t = codes "tier " ++ show_nat (rank t) ++ codes " (" ++ tier_name t ++ codes ")"

unfoldable pub reason_text : Reason → Tier → Text
reason_text denied_by_list t = codes "matched RELAY_SHELL_POLICY_DENY"
reason_text readonly_refuses t =
    codes "readonly mode refuses Tier "
    ++ show_nat (rank t)
    ++ codes " ("
    ++ tier_name t
    ++ codes ")"
reason_text allowed_by_list t = codes "guarded: allowed by RELAY_SHELL_POLICY_ALLOW"
reason_text guarded_refuses t =
    codes "guarded mode refuses Tier "
    ++ show_nat (rank t)
    ++ codes " ("
    ++ tier_name t
    ++ codes ") without an RELAY_SHELL_POLICY_ALLOW match"
reason_text permitted t = codes "permitted"

-- The bodies that a refused call and a challenged call return.
unfoldable pub oversize_body : Tier → ℕ → ℕ → Text
unfolding tier_text
oversize_body t n bound =
    codes "[DENIED "
    ++ tier_text t
    ++ codes ": input is "
    ++ show_nat n
    ++ codes " characters, over RELAY_SHELL_MAX_INPUT ("
    ++ show_nat bound
    ++ codes ")]"

unfoldable pub denied_body : PolicyDecision → Text
unfolding tier_text reason_text
denied_body d =
    codes "[DENIED " ++ tier_text d.tier ++ codes ": " ++ reason_text d.reason d.tier ++ codes "]"

unfoldable pub challenge_body : Tier → Challenge → Text
unfolding tier_text
challenge_body t c =
    codes "[CONFIRM REQUIRED "
    ++ tier_text t
    ++ codes ": this irreversible operation needs a second step. Call operation_confirm(token=\""
    ++ c.token
    ++ codes "\") then re-issue this exact call within "
    ++ show_nat c.challenge_ttl
    ++ codes "s.]"

unfoldable pub is_irreversible : Tier → Bool
is_irreversible irreversible = true
is_irreversible _ = false

-- `[exit N]` in front of a body that has an exit code.
unfoldable pub with_exit : Option ℤ → Text → Text
with_exit none body = body
with_exit (some n) body = codes "[exit " ++ show_int n ++ codes "]\n" ++ body

module _ (L : Library) (settings : Settings) (policy : Policy) where
  -- `_confirm_op_key`
  unfoldable pub confirm_op_key : Text → Dict Text → Text
  confirm_op_key policy_text audit_args = policy_text ++ 0 ∷ L.dumps audit_args

  unfoldable pub record_of : Call → Tier → Text → Option ℤ → Bool → Action → Record
  record_of c t output exit_code denied action = record {
    tool = c.tool;
    args = L.redact_args c.audit_args;
    output = output;
    exit_code = exit_code;
    tier = rank t;
    request_id = c.request_id;
    client_id = c.client_id;
    denied = denied;
    action = action;
  }

  -- An `audit.record` and the `inc_tool_call` behind it.
  unfoldable pub log : Record → World → World
  log r w = record w { records = w.records ++ r ∷ [] }

  unfoldable pub count_call : Call → Tier → Outcome → World → World
  count_call c t o w = record w {
    labels =
        w.labels ++ record { tool = c.tool; tier = rank t; mode = policy.mode; outcome = o } ∷ [];
  }

  unfoldable pub deny : Call → Tier → Text → World → World × Result
  unfolding record_of log count_call
  deny c t body w = (
    count_call c t denied_outcome (log (record_of c t body none true plain_action) w),
    returned body,
  )

  unfoldable pub finish :
      Call → PolicyDecision → Action → Text → Option ℤ → Outcome → World → World × Result
  unfolding record_of log count_call truncate clamp_output with_exit
  finish c d action body exit_code outcome w =
      let final = with_exit exit_code (truncate body (clamp_output settings c.max_output)) in
      let w =
        count_call c d.tier outcome (log (record_of c d.tier final exit_code false action) w) in
      (
        w,
        returned (
            if settings.unsafe_notices
            then attach_notices L.with_notices final
                (call_notices d c.audit_args ++ c.extra_notices) c.json_notices
            else final),
      )

  unfoldable pub end : Call → PolicyDecision → Action → Ending → World → World × Result
  unfolding record_of log count_call finish
  end c d action (finished body exit_code) w = finish c d action body exit_code ok_outcome w
  end c d action (failed body) w = finish c d action body none error_outcome w
  end c d action cancelled w = (
    count_call c d.tier cancelled_outcome
        (log (record_of c d.tier (codes "[CANCELLED]") none false cancelled_action) w),
    raised,
  )

  -- The call behind its gates: the intent record, and the work.
  unfoldable pub execute : Call → PolicyDecision → Action → World → World × Result
  unfolding record_of log end
  execute c d action w =
      let w =
        if settings.audit_intent
        then log (record_of c d.tier [] none false intent_action) w
        else w in
      end c d action c.ending (record w { executed = suc w.executed; at_work = w.records })

  unfoldable pub challenge : Call → PolicyDecision → Broker × Challenge → World → World × Result
  unfolding record_of log count_call challenge_body
  challenge c d (b, ch) w =
      let body = challenge_body d.tier ch in
      (
        count_call c d.tier confirm_required
            (log (record_of c d.tier body none false confirm_plan) (record w { broker = some b })),
        returned body,
      )

  unfoldable pub confirm : Call → PolicyDecision → Broker × Bool → World → World × Result
  unfolding confirm_op_key challenge execute plan
  confirm c d (b, true) w = execute c d confirm_execute (record w { broker = some b })
  confirm c d (b, false) w =
      challenge c d
        (plan L.sha256_hex c.plan_at c.token c.tool (confirm_op_key c.policy_text c.audit_args)
          c.client_id b)
        w

  unfoldable pub gate : Call → PolicyDecision → Option Broker → World → World × Result
  unfolding confirm_op_key confirm execute consume is_irreversible
  gate c d none w = execute c d plain_action w
  gate c d (some b) w =
      if is_irreversible d.tier
      then confirm c d
          (consume L.sha256_hex c.consume_at c.tool (confirm_op_key c.policy_text c.audit_args)
            c.client_id b)
          w
      else execute c d plain_action w

  unfoldable pub run : Call → World → World × Result
  unfolding deny gate oversize_body denied_body classify check
  run c w =
      if ltb settings.max_input (length c.policy_text)
      then (let t = classify L.patterns c.tool [] in
          deny c t (oversize_body t (length c.policy_text) settings.max_input) w)
      else (let d = check L.patterns policy c.tool c.policy_text c.min_tier in
          if d.allowed then gate c d w.broker w else deny c d.tier (denied_body d) w)
