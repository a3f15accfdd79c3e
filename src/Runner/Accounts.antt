-- ===== src/Runner/Accounts.antt =====
-- The records and counts of one call (`Relay.run` of src/relay_shell/server.py).
use relay_shell.Prelude.{
  append_assoc, append-nil, ℕ, suc, ◌+◌, ◌≡◌, refl, Bool, true, false, List, [], ◌∷◌, ◌++◌, Option,
  none, some, Bool-cases, inl, inr, if◌then◌else◌, length, arith, Text, ltb, ◌∙◌, ap, sym, All, ℤ,
}
use relay_shell.Broker.{Broker, Challenge}
use relay_shell.Policy.{Tier, Policy, PolicyDecision, check}
use relay_shell.Runner.{
  Settings, Action, Record, Outcome, Label, Ending, Call, World, Result, Library, record_of, log,
  count_call, deny, finish, end, execute, challenge, confirm, gate, run, is_irreversible,
}
use Outcome.{denied_outcome, confirm_required}
use Ending.{finished, failed, cancelled}

-- A call that was refused or challenged did not run.
unfoldable pub ran : Outcome → ℕ
ran denied_outcome = 0
ran confirm_required = 0
ran _ = 1

unfoldable pub is_denied : Outcome → Bool
is_denied denied_outcome = true
is_denied _ = false

unfoldable pub is_work : Action → Bool
is_work Action.plain_action = true
is_work Action.confirm_execute = true
is_work _ = false

-- The action of a completion record, for the outcome that is counted.
unfoldable pub agrees : Outcome → Action → Bool
unfolding is_work
agrees Outcome.ok_outcome a = is_work a
agrees Outcome.error_outcome a = is_work a
agrees denied_outcome Action.plain_action = true
agrees confirm_required Action.confirm_plan = true
agrees Outcome.cancelled_outcome Action.cancelled_action = true
agrees _ _ = false

-- The intent record of the call that a completion record closes.
pub record IsIntent (completion r : Record) : Type 0 where
  pub action : r.action ≡ Action.intent_action
  pub tool : r.tool ≡ completion.tool
  pub args : r.args ≡ completion.args
  pub tier : r.tier ≡ completion.tier
  pub request_id : r.request_id ≡ completion.request_id
  pub client_id : r.client_id ≡ completion.client_id
  pub denied : r.denied ≡ false

-- One completion record and one count for the call, which agree, and an intent record in front
-- exactly if the setting asks for it and the work ran, in the trail before the work.
pub record Accounted (intended : Bool) (before after : World) : Type 0 where
  pub intents : List Record
  pub completion : Record
  pub label : Label
  pub recorded : after.records ≡ before.records ++ (intents ++ completion ∷ [])
  pub counted : after.labels ≡ before.labels ++ label ∷ []
  pub executed : after.executed ≡ ran label.outcome + before.executed
  pub announced : length intents ≡ (if intended then ran label.outcome else 0)
  pub same_tier : completion.tier ≡ label.tier
  pub same_denial : completion.denied ≡ is_denied label.outcome
  pub same_tool : completion.tool ≡ label.tool
  pub same_action : agrees label.outcome completion.action ≡ true
  pub are_intents : All (IsIntent completion) intents
  pub precede : ran label.outcome ≡ 1 → after.at_work ≡ before.records ++ intents

-- The trail and the counters do not hold the broker.
rebase :
    (intended : Bool) (w after : World) (b : Broker)
    → Accounted intended (record w { broker = some b }) after
    → Accounted intended w after
rebase intended w after b a = record {
  intents = a.intents;
  completion = a.completion;
  label = a.label;
  recorded = a.recorded;
  counted = a.counted;
  executed = a.executed;
  announced = a.announced;
  same_tier = a.same_tier;
  same_denial = a.same_denial;
  same_tool = a.same_tool;
  same_action = a.same_action;
  are_intents = a.are_intents;
  precede = a.precede;
}

module _ (L : Library) (settings : Settings) (policy : Policy) where
  abbrev Within : World → World × Result → Type 0
  Within before after = Accounted settings.audit_intent before after.0

  deny-Accounted :
      (c : Call) (t : Tier) (body : Text) (w : World) → Within w (deny L settings policy c t body w)
  unfolding deny log count_call record_of ran is_denied agrees
  deny-Accounted c t body w = record {
    intents = [];
    completion = _;
    label = _;
    recorded = refl;
    counted = refl;
    executed = omega arith;
    announced = ground arith;
    same_tier = refl;
    same_denial = refl;
    same_tool = refl;
    same_action = refl;
    are_intents = tt;
    precede = λ e. absurd (omega (arith, e));
  }

  -- The world in which the work of a call has run.
  record Started (c : Call) (d : PolicyDecision) (before after : World) : Type 0 where
    intents : List Record
    recorded : after.records ≡ before.records ++ intents
    same_labels : after.labels ≡ before.labels
    executed : after.executed ≡ suc before.executed
    announced : length intents ≡ (if settings.audit_intent then 1 else 0)
    are_intents :
        (output : Text) (exit_code : Option ℤ) (action : Action)
        → All
            (IsIntent (record_of L settings policy c d.tier output exit_code false action))
            intents
    at_work : after.at_work ≡ before.records ++ intents

  -- A completion behind it.
  completed :
      (c : Call) (d : PolicyDecision) (before after : World) (r : Record) (l : Label)
      → (s : Started c d before after) → ran l.outcome ≡ 1
      → r.tier ≡ l.tier
      → r.denied ≡ is_denied l.outcome
      → r.tool ≡ l.tool
      → agrees l.outcome r.action ≡ true
      → All (IsIntent r) s.intents
      → Accounted settings.audit_intent before
          (record after { records = after.records ++ r ∷ []; labels = after.labels ++ l ∷ [] })
  completed c d before after r l s one tier denial tool action are = record {
    intents = s.intents;
    completion = r;
    label = l;
    recorded = ap (λ x. x ++ r ∷ []) s.recorded ∙ append_assoc before.records s.intents (r ∷ []);
    counted = ap (λ x. x ++ l ∷ []) s.same_labels;
    executed = omega (arith, s.executed, one);
    announced = rw one s.announced;
    same_tier = tier;
    same_denial = denial;
    same_tool = tool;
    same_action = action;
    are_intents = are;
    precede = λ e. s.at_work;
  }

  end-Accounted :
      (c : Call) (d : PolicyDecision) (action : Action) (e : Ending) (before after : World)
      → is_work action ≡ true
      → Started c d before after
      → Within before (end L settings policy c d action e after)
  unfolding end finish log count_call record_of ran is_denied agrees
  end-Accounted c d action (finished body exit_code) before after work s =
      completed c d before after _ _ s refl refl refl refl work (s.are_intents _ _ _)
  end-Accounted c d action (failed body) before after work s =
      completed c d before after _ _ s refl refl refl refl work (s.are_intents _ _ _)
  end-Accounted c d action cancelled before after work s =
      completed c d before after _ _ s refl refl refl refl refl (s.are_intents _ _ _)

  execute-Accounted :
      (c : Call) (d : PolicyDecision) (action : Action) (w : World)
      → is_work action ≡ true
      → Within w (execute L settings policy c d action w)
  unfolding execute log record_of
  execute-Accounted c d action w work = elim (Bool-cases settings.audit_intent) [
    | inl e ↦ end-Accounted c d action c.ending w _ work record {
      intents = record_of L settings policy c d.tier [] none false Action.intent_action ∷ [];
      recorded = rw e refl;
      same_labels = rw e refl;
      executed = rw e refl;
      announced = rw e refl;
      are_intents = λ o x a. (
        record {
          action = refl;
          tool = refl;
          args = refl;
          tier = refl;
          request_id = refl;
          client_id = refl;
          denied = refl;
        },
        tt,
      );
      at_work = rw e refl;
    }
    | inr e ↦ end-Accounted c d action c.ending w _ work record {
      intents = [];
      recorded = rw e (sym (append-nil w.records));
      same_labels = rw e refl;
      executed = rw e refl;
      announced = rw e refl;
      are_intents = λ o x a. tt;
      at_work = rw e (sym (append-nil w.records));
    }
  ]

  challenge-Accounted :
      (c : Call) (d : PolicyDecision) (b : Broker) (ch : Challenge) (w : World)
      → Within w (challenge L settings policy c d (b, ch) w)
  unfolding challenge log count_call record_of ran is_denied agrees
  challenge-Accounted c d b ch w = record {
    intents = [];
    completion = _;
    label = _;
    recorded = refl;
    counted = refl;
    executed = omega arith;
    announced = ground arith;
    same_tier = refl;
    same_denial = refl;
    same_tool = refl;
    same_action = refl;
    are_intents = tt;
    precede = λ e. absurd (omega (arith, e));
  }

  confirm-Accounted :
      (c : Call) (d : PolicyDecision) (b : Broker) (granted : Bool) (w : World)
      → Within w (confirm L settings policy c d (b, granted) w)
  unfolding confirm is_work
  confirm-Accounted c d b true w =
      rebase settings.audit_intent w _ b
        (execute-Accounted c d _ (record w { broker = some b }) refl)
  confirm-Accounted c d b false w = challenge-Accounted c d _ _ w

  gate-Accounted :
      (c : Call) (d : PolicyDecision) (o : Option Broker) (w : World)
      → Within w (gate L settings policy c d o w)
  unfolding gate is_work
  gate-Accounted c d none w = execute-Accounted c d _ w refl
  gate-Accounted c d (some b) w = elim (Bool-cases (is_irreversible d.tier)) [
    | inl e ↦ rw e (confirm-Accounted c d _ _ w)
    | inr e ↦ rw e (execute-Accounted c d _ w refl)
  ]

  -- Every call, refused, challenged, finished, failed or cancelled, appends one completion record
  -- and one count. Both name the same tool and tier, both or neither tell of a denial, and the
  -- action of the record is that of the counted outcome. In front stands an intent record, with the
  -- tool, arguments, tier and ids of the completion, exactly if the setting asks for it and the work
  -- ran, and it is in the trail when the work begins. The work runs once, or not at all in a call
  -- that is counted as denied or as waiting for its confirmation.
  pub run-Accounted :
      (c : Call) (w : World) → Accounted settings.audit_intent w (run L settings policy c w).0
  unfolding run
  run-Accounted c w = elim (Bool-cases (ltb settings.max_input (length c.policy_text))) [
    | inl e ↦ rw e (deny-Accounted c _ _ w)
    | inr e ↦ elim (Bool-cases (check L.patterns policy c.tool c.policy_text c.min_tier).allowed) [
      | inl f ↦ rw (e, f) (gate-Accounted c _ w.broker w)
      | inr f ↦ rw (e, f) (deny-Accounted c _ _ w)
    ]
  ]
