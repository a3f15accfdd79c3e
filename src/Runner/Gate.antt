-- ===== src/Runner/Gate.antt =====
-- The gates in front of the work of a call (`Relay.run` of src/relay_shell/server.py).
use relay_shell.Prelude.{
  ℕ, suc, ◌+◌, ◌≡◌, ◌≢◌, ◌≤◌, ◌↔◌, refl, Bool, true, false, not, ◌&&◌, Option, none, some,
  Bool-cases, inl, inr, if◌then◌else◌, length, arith, Text, ltb,
}
use relay_shell.Broker.{Broker, consume}
use relay_shell.Broker.{init}
use relay_shell.Broker.History.{History}
use relay_shell.Broker.History.{run as serve}
use relay_shell.Broker.Confirmation.{Released, consume-Released}
use relay_shell.Policy.{Tier, Policy, PolicyDecision, check}
use relay_shell.Runner.{
  Settings, Action, Ending, Call, World, Library, log, count_call, deny, finish, end, execute,
  challenge, confirm, confirm_op_key, gate, run, is_irreversible,
}

module _ (L : Library) (settings : Settings) (policy : Policy) where
  abbrev pub decision : Call → PolicyDecision
  decision c = check L.patterns policy c.tool c.policy_text c.min_tier

  -- What the broker answers to the call.
  abbrev pub grant : Call → Broker → Broker × Bool
  grant c b =
      consume L.sha256_hex c.consume_at c.tool
        (confirm_op_key L settings policy c.policy_text c.audit_args) c.client_id b

  end-executed :
      (c : Call) (d : PolicyDecision) (a : Action) (e : Ending) (w : World)
      → (end L settings policy c d a e w).0.executed ≡ w.executed
  unfolding end finish log count_call
  end-executed c d a (Ending.finished body code) w = refl
  end-executed c d a (Ending.failed body) w = refl
  end-executed c d a Ending.cancelled w = refl

  execute-executed :
      (c : Call) (d : PolicyDecision) (a : Action) (w : World)
      → (execute L settings policy c d a w).0.executed ≡ suc w.executed
  unfolding execute log
  execute-executed c d a w = elim (Bool-cases settings.audit_intent) [
    | inl e ↦ rw (e, end-executed c d a c.ending) refl
    | inr e ↦ rw (e, end-executed c d a c.ending) refl
  ]

  deny-executed :
      (c : Call) (t : Tier) (body : Text) (w : World)
      → (deny L settings policy c t body w).0.executed ≡ w.executed
  unfolding deny log count_call
  deny-executed c t body w = refl

  confirm-executed :
      (c : Call) (d : PolicyDecision) (b : Broker) (granted : Bool) (w : World)
      → (confirm L settings policy c d (b, granted) w).0.executed
        ≡ (if granted then 1 else 0) + w.executed
  unfolding confirm challenge log count_call
  confirm-executed c d b true w = rw (execute-executed c d) (omega arith)
  confirm-executed c d b false w = omega arith

  -- The gate of the broker.
  passes : Call → PolicyDecision → Option Broker → Bool
  passes c d none = true
  passes c d (some b) = if is_irreversible d.tier then (grant c b).1 else true

  gate-executed :
      (c : Call) (d : PolicyDecision) (o : Option Broker) (w : World)
      → (gate L settings policy c d o w).0.executed ≡ (if passes c d o then 1 else 0) + w.executed
  unfolding gate passes
  gate-executed c d none w = rw (execute-executed c d) (omega arith)
  gate-executed c d (some b) w = elim (Bool-cases (is_irreversible d.tier)) [
    | inl e ↦ rw e (confirm-executed c d _ _ w)
    | inr e ↦ rw e (rw (execute-executed c d) (omega arith))
  ]

  run-executed :
      (c : Call) (w : World)
      → (run L settings policy c w).0.executed
        ≡ (if not (ltb settings.max_input (length c.policy_text))
              && ((decision c).allowed && passes c (decision c) w.broker)
            then 1
            else 0)
          + w.executed
  unfolding run
  run-executed c w = elim (Bool-cases (ltb settings.max_input (length c.policy_text))) [
    | inl e ↦ rw (e, deny-executed c) (omega arith)
    | inr e ↦ elim (Bool-cases (decision c).allowed) [
      | inl f ↦ rw (e, f) (gate-executed c _ w.broker w)
      | inr f ↦ rw (e, f, deny-executed c) (omega arith)
    ]
  ]

  passes_iff :
      (c : Call) (d : PolicyDecision) (o : Option Broker)
      → (passes c d o ≡ true)
        ↔ ((b : Broker) → o ≡ some b → is_irreversible d.tier ≡ true → (grant c b).1 ≡ true)
  unfolding passes
  passes_iff c d none = (λ h b e. cc, λ h. refl)
  passes_iff c d (some b) = (λ h x e i. ground (arith, e), λ h. ground (arith, h b refl))

  executed-passes :
      (c : Call) (w : World)
      → ((run L settings policy c w).0.executed ≢ w.executed)
        ↔ (length c.policy_text ≤ settings.max_input)
          × ((decision c).allowed ≡ true)
          × (passes c (decision c) w.broker ≡ true)
  executed-passes c w = rw (run-executed c w) (ground arith)

  -- The work of a call runs exactly if the text is within the input bound, the policy admits the
  -- call, and, where a broker is set up and the tier is irreversible, the broker grants it.
  pub executed_iff :
      (c : Call) (w : World)
      → ((run L settings policy c w).0.executed ≢ w.executed)
        ↔ (length c.policy_text ≤ settings.max_input)
          × ((decision c).allowed ≡ true)
          × ((b : Broker)
              → w.broker ≡ some b
              → is_irreversible (decision c).tier ≡ true
              → (grant c b).1 ≡ true)
  executed_iff c w =
      let (there, back) = executed-passes c w in
      let (granting, passing) = passes_iff c (decision c) w.broker in
      (
        λ ran. let (size, admitted, gate) = there ran in (size, admitted, granting gate),
        λ (size, admitted, gate). back (size, admitted, passing gate),
      )

  -- With a broker that has served any history of calls, an irreversible call runs only on a token
  -- that the same client planned for an operation of the same hash, and then armed in time.
  pub executed-Released :
      (ttl bound : ℕ) (hs : History) (c : Call) (w : World)
      → w.broker ≡ some (serve L.sha256_hex (init ttl bound) hs)
      → is_irreversible (decision c).tier ≡ true
      → (run L settings policy c w).0.executed ≢ w.executed
      → Released L.sha256_hex ttl bound hs c.consume_at c.tool
          (confirm_op_key L settings policy c.policy_text c.audit_args)
          c.client_id
  executed-Released ttl bound hs c w served tier ran =
      let (size, admitted, granted) = (executed_iff c w).0 ran in
      consume-Released L.sha256_hex ttl bound hs c.consume_at c.tool _ c.client_id
        (granted _ served tier)
