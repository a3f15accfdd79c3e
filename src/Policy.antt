-- ===== src/Policy.antt =====
-- The tiered-authority policy (src/relay_shell/policy.py): assessment of a call and its admission.
-- The compiled regex tables are the parameter `Patterns`.
pub mod Continuation
pub mod Order
mod Examples
use relay_shell.Prelude.{
  ℕ, ◌++◌, Bool, true, false, not, ◌&&◌, ◌||◌, List, [], ◌∷◌, Option, some, none, Text, codes,
  strip, is_among, if◌then◌else◌, leb,
}
use Continuation.{strip_line_continuations}

pub data Tier : Type 0 where
  read_only reversible stateful irreversible : Tier

-- `Tier` is an `IntEnum`.
unfoldable pub rank : Tier → ℕ
rank read_only = 0
rank reversible = 1
rank stateful = 2
rank irreversible = 3

-- `max` of two tiers, and `>=` and `>`.
unfoldable pub max_tier : Tier → Tier → Tier
max_tier irreversible t = irreversible
max_tier stateful irreversible = irreversible
max_tier stateful t = stateful
max_tier reversible read_only = reversible
max_tier reversible t = t
max_tier read_only t = t

-- `_READ_ONLY_TOOLS` and `_MUTATING_TOOLS`.
unfoldable pub read_only_tools : List Text
read_only_tools =
    codes "server_info"
    ∷ codes "ssh_hosts"
    ∷ codes "ssh_check"
    ∷ codes "session_list"
    ∷ codes "session_recv"
    ∷ codes "ssh_forward_list"
    ∷ codes "audit_tail"
    ∷ codes "operation_confirm"
    ∷ []

unfoldable pub mutating_tools : List Text
mutating_tools = codes "ssh_upload" ∷ codes "ssh_download" ∷ codes "ssh_forward" ∷ []

-- The `BASIS_*` strings, and the one that `check` gives for a raised tier.
pub data Basis : Type 0 where
  read_only_tool irreversible_pattern privilege_pattern stateful_pattern : Basis
  mutating_tool default_basis raised_by_tool : Basis

pub record Assessment : Type 0 where
  pub tier : Tier
  pub basis : Basis

-- The regex tables of patterns.py, as the policy calls them.
pub record Patterns : Type 0 where
  pub matches_tier3 : Text → Bool
  pub matches_tier2 : Text → Bool
  pub priv_esc : Text → Bool
  pub priv_esc_eval_hint : Text → Bool
  -- `PRIV_ESC_READER_SEGMENT.sub(" ", text)`
  pub blank_readers : Text → Text

pub data Mode : Type 0 where
  open_mode guarded readonly : Mode

-- The reasons of a decision.
pub data Reason : Type 0 where
  denied_by_list readonly_refuses allowed_by_list guarded_refuses permitted : Reason

pub record PolicyDecision : Type 0 where
  pub allowed : Bool
  pub tier : Tier
  pub reason : Reason
  pub basis : Basis

-- `Policy`: a compiled pattern is its `search` test, and `none` if the setting is empty.
pub record Policy : Type 0 where
  pub mode : Mode
  pub deny : Option (Text → Bool)
  pub allow : Option (Text → Bool)

unfoldable pub found : Option (Text → Bool) → Text → Bool
found none probe = false
found (some search_in) probe = search_in probe

unfoldable pub is_read_only : Tier → Bool
is_read_only read_only = true
is_read_only _ = false

-- `tier >= Tier.STATEFUL`
unfoldable pub is_stateful : Tier → Bool
is_stateful read_only = false
is_stateful reversible = false
is_stateful _ = true

-- `min_tier > assessment.tier`
unfoldable pub raises : Tier → Tier → Bool
raises least t = not (leb (rank least) (rank t))

-- `f"{tool} {command}".strip()`
unfoldable pub probe_of : Text → Text → Text
probe_of tool command = strip (tool ++ 32 ∷ command)

unfoldable pub verdict : Tier → Basis → Bool → Reason → PolicyDecision
verdict t b ok why = record { allowed = ok; tier = t; reason = why; basis = b }

-- The tests of the mode in `check`, where `listed` says that the allow list matched.
unfoldable pub in_mode : Mode → Bool → Tier → Basis → PolicyDecision
unfolding is_read_only is_stateful verdict
in_mode readonly listed tier basis =
    if not (is_read_only tier)
    then verdict tier basis false readonly_refuses
    else verdict tier basis true permitted
in_mode guarded listed tier basis =
    if is_stateful tier
    then (if listed
        then verdict tier basis true allowed_by_list
        else verdict tier basis false guarded_refuses)
    else verdict tier basis true permitted
in_mode open_mode listed tier basis = verdict tier basis true permitted

-- The body of `check` behind the assessment.
unfoldable pub decide : Policy → Text → Tier → Basis → PolicyDecision
unfolding found verdict in_mode
decide p probe tier basis =
    if found p.deny probe
    then verdict tier basis false denied_by_list
    else in_mode p.mode (found p.allow probe) tier basis

module _ (R : Patterns) where
  -- The privilege wrapper counts unless only a reader's words name it and nothing evaluates text.
  unfoldable pub escalates : Text → Bool
  escalates text =
      R.priv_esc text
      && R.priv_esc (if R.priv_esc_eval_hint text then text else R.blank_readers text)

  unfoldable pub assess_text : Text → Text → Assessment
  unfolding escalates
  assess_text tool text =
      if R.matches_tier3 text
      then record { tier = irreversible; basis = irreversible_pattern }
      else if escalates text
      then record { tier = stateful; basis = privilege_pattern }
      else if R.matches_tier2 text
      then record { tier = stateful; basis = stateful_pattern }
      else if is_among tool mutating_tools
      then record { tier = stateful; basis = mutating_tool }
      else record { tier = reversible; basis = default_basis }

  unfoldable pub assess : Text → Text → Assessment
  unfolding assess_text
  assess tool command =
      if is_among tool read_only_tools
      then record { tier = read_only; basis = read_only_tool }
      else assess_text tool (strip_line_continuations command)

  unfoldable pub classify : Text → Text → Tier
  unfolding assess
  classify tool command = (assess tool command).tier

  unfoldable pub check : Policy → Text → Text → Tier → PolicyDecision
  unfolding decide raises
  check p tool command min_tier =
      let a = assess tool command in
      decide p (probe_of tool command) (max_tier a.tier min_tier)
        (if raises min_tier a.tier then raised_by_tool else a.basis)
