-- ===== src/Runner/Confirmed.antt =====
-- What a confirmed call was planned as (`Relay.run` of src/relay_shell/server.py with its broker).
use relay_shell.Prelude.{
  ℕ, ◌≡◌, ◌≢◌, ◌⊎◌, inl, inr, refl, true, List, [], ◌∷◌, ◌++◌, some, Text, text_eq, text_eq_sound,
  text_eq_refl, Bool-cases, max, ◌∙◌, sym,
}
use relay_shell.Broker.{init, op_hash}
use relay_shell.Broker.Store.{Entry}
use relay_shell.Broker.History.{
  History, plans, arms, consumes, counts, Planned, made, before, Confirmed, done, earlier,
}
use relay_shell.Broker.History as Served
use relay_shell.Broker.Confirmation.{Released}
use relay_shell.Policy.{Policy}
use relay_shell.Runner.{Settings, Call, World, Library, confirm_op_key, run, is_irreversible}
use relay_shell.Runner.Gate.{executed-Released, decision}
use relay_shell.Runner.OpKey.{IsNulFree, op_hash-inj}

-- What the server asks of its broker: a plan or a consume for a call, and the confirmation tool.
pub data Event : Type 0 where
  plans_call : Text → Call → Event
  consumes_call : Call → Event
  confirms : Text → Text → Event
  counts_pending : Event

-- Each event with its clock reading, the latest first.
abbrev pub Events : Type 0
Events = List (ℕ × Event)

abbrev Among : {A : Type 0} → A → List A → Type 0
Among x [] = ⊥
Among x (y ∷ ys) = (x ≡ y) ⊎ Among x ys

-- Two texts of one SHA-256.
abbrev pub Collision : Library → Type 0
Collision L = (s : Text) × (t : Text) × (s ≢ t) × (L.sha256_hex s ≡ L.sha256_hex t)

module _ (L : Library) (settings : Settings) (policy : Policy) where
  abbrev op_key : Call → Text
  op_key c = confirm_op_key L settings policy c.policy_text c.audit_args

  abbrev pub history : Events → History
  history [] = []
  history ((t, plans_call token c) ∷ es) =
      (t, plans token c.tool (op_key c) c.client_id) ∷ history es
  history ((t, consumes_call c) ∷ es) = (t, consumes c.tool (op_key c) c.client_id) ∷ history es
  history ((t, confirms token client) ∷ es) = (t, arms token client) ∷ history es
  history ((t, counts_pending) ∷ es) = (t, counts) ∷ history es

  -- The separator of the key is in no tool name, and JSON escapes it.
  abbrev pub IsPlain : Call → Type 0
  IsPlain c = IsNulFree c.tool × IsNulFree (L.dumps c.audit_args)

  abbrev pub ArePlain : Events → Type 0
  ArePlain [] = Unit
  ArePlain ((t, plans_call token c) ∷ es) = IsPlain c × ArePlain es
  ArePlain (e ∷ es) = ArePlain es

  -- The token was planned for a call of the same client with the same tool, text and arguments.
  abbrev pub WasAsked : Text → Call → Events → Type 0
  WasAsked token c es =
      (t : ℕ) × (asked : Call) × Among (t, plans_call token asked) es
      × (asked.client_id ≡ c.client_id)
      × (asked.tool ≡ c.tool)
      × (asked.policy_text ≡ c.policy_text)
      × (L.dumps asked.audit_args ≡ L.dumps c.audit_args)

  Planned-Among :
      (ttl : ℕ) (token : Text) (e : Entry) {hs : History}
      → Planned L.sha256_hex ttl token e hs
      → (t : ℕ) × (tool : Text) × (key : Text) × Among (t, plans token tool key e.client_id) hs
        × (e.op_hash ≡ op_hash L.sha256_hex tool key)
  Planned-Among ttl token e (made t tool key same expires) = (t, tool, key, inl refl, same)
  Planned-Among ttl token e (before p) =
      let (t, tool, key, among, same) = Planned-Among ttl token e p in
      (t, tool, key, inr among, same)

  Confirmed-Planned :
      (ttl : ℕ) (token : Text) (e : Entry) {hs : History}
      → Confirmed L.sha256_hex ttl token e hs
      → (t : ℕ) × (tool : Text) × (key : Text) × Among (t, plans token tool key e.client_id) hs
        × (e.op_hash ≡ op_hash L.sha256_hex tool key)
  Confirmed-Planned ttl token e (done t p late) =
      let (u, tool, key, among, same) = Planned-Among ttl token e p in
      (u, tool, key, inr among, same)
  Confirmed-Planned ttl token e (earlier p) =
      let (t, tool, key, among, same) = Confirmed-Planned ttl token e p in
      (t, tool, key, inr among, same)

  -- A plan in the history is that of a call.
  plans-call :
      (t : ℕ) (token tool key client : Text) (es : Events)
      → ArePlain es
      → Among (t, plans token tool key client) (history es)
      → (asked : Call) × (Among (t, plans_call token asked) es
          × ((client ≡ asked.client_id)
              × (tool ≡ asked.tool)
              × (key ≡ op_key asked)
              × IsPlain asked))
  plans-call t token tool key client [] plain h = absurd h
  plans-call t token tool key client ((u, plans_call other c) ∷ es) plain (inl e) =
      let times : t ≡ u = cc in
      let tokens : token ≡ other = cc in (c, (inl (rw (times, tokens) refl), (cc, cc, cc, plain.0)))
  plans-call t token tool key client ((u, plans_call other c) ∷ es) plain (inr h) =
      let (asked, (among, rest)) = plans-call t token tool key client es plain.1 h in
      (asked, (inr among, rest))
  plans-call t token tool key client ((u, consumes_call c) ∷ es) plain (inl e) = absurd cc
  plans-call t token tool key client ((u, consumes_call c) ∷ es) plain (inr h) =
      let (asked, (among, rest)) = plans-call t token tool key client es plain h in
      (asked, (inr among, rest))
  plans-call t token tool key client ((u, confirms other by) ∷ es) plain (inl e) = absurd cc
  plans-call t token tool key client ((u, confirms other by) ∷ es) plain (inr h) =
      let (asked, (among, rest)) = plans-call t token tool key client es plain h in
      (asked, (inr among, rest))
  plans-call t token tool key client ((u, counts_pending) ∷ es) plain (inl e) = absurd cc
  plans-call t token tool key client ((u, counts_pending) ∷ es) plain (inr h) =
      let (asked, (among, rest)) = plans-call t token tool key client es plain h in
      (asked, (inr among, rest))

  -- Operations of one hash are one call, or two texts collide.
  same_call :
      (asked c : Call)
      → IsPlain asked
      → IsPlain c
      → op_hash L.sha256_hex asked.tool (op_key asked) ≡ op_hash L.sha256_hex c.tool (op_key c)
      → ((asked.tool ≡ c.tool)
          × (asked.policy_text ≡ c.policy_text)
          × (L.dumps asked.audit_args ≡ L.dumps c.audit_args))
        ⊎ Collision L
  unfolding op_hash
  same_call asked c asked_plain plain e =
      let s = asked.tool ++ 0 ∷ op_key asked in
      let t = c.tool ++ 0 ∷ op_key c in
      elim (Bool-cases (text_eq s t)) [
        | inl same ↦ inl (
            op_hash-inj L settings policy asked.tool c.tool asked.policy_text c.policy_text
              asked.audit_args c.audit_args asked_plain.0 plain.0 asked_plain.1 plain.1
              (λ h. text_eq_sound s t same) e)
        | inr differ ↦
            inr (s, t, λ h. let alike : text_eq s t ≡ true = rw h (text_eq_refl t) in cc, e)
      ]

  -- With a broker that has served the server's own requests, an irreversible call runs only on a
  -- token that the same client armed in time after it was planned, and that was planned for a call
  -- with the same client, tool, policy text and printed arguments, or two different texts of one
  -- SHA-256 are at hand.
  pub executed-WasAsked :
      (ttl bound : ℕ) (es : Events) (c : Call) (w : World)
      → ArePlain es
      → IsPlain c
      → w.broker ≡ some (Served.run L.sha256_hex (init ttl bound) (history es))
      → is_irreversible (decision L settings policy c).tier ≡ true
      → (run L settings policy c w).0.executed ≢ w.executed
      → (used : Released L.sha256_hex ttl bound
          (history es)
          c.consume_at
          c.tool
          (op_key c)
          c.client_id)
        × (WasAsked used.token c es ⊎ Collision L)
  executed-WasAsked ttl bound es c w all_plain plain served tier ran =
      let used = executed-Released L settings policy ttl bound (history es) c w served tier ran in
      let (t, tool, key, planned, hash) =
        Confirmed-Planned (max 1 ttl) used.token used.entry used.confirmed in
      let (asked, (among, (client, tools, keys, asked_plain))) =
        plans-call t used.token tool key used.entry.client_id es all_plain planned in
      let hashes : op_hash L.sha256_hex asked.tool (op_key asked)
          ≡ op_hash L.sha256_hex c.tool (op_key c) =
        rw (sym tools, sym keys) (sym hash ∙ used.operation) in
      (
        used,
        elim (same_call asked c asked_plain plain hashes) [
          | inl (t_same, x_same, a_same) ↦
              inl (t, asked, among, sym client ∙ used.owner, t_same, x_same, a_same)
          | inr two ↦ inr two
        ],
      )
