-- ===== src/Tools/Denied.antt =====
-- A denied address cannot be spelled around (the SSH wrappers of src/relay_shell/server.py, its
-- policy texts, src/relay_shell/policy.py and Relay.run).
use relay_shell.Prelude.{
  ℕ, ◌≡◌, ◌≢◌, inl, inr, refl, sym, ap, subst, ◌∙◌, Bool, true, false, ◌&&◌, List, [], ◌∷◌, ◌++◌,
  Option, none, some, Text, codes, Dict, ℤ, ◌==◌, All, take, contains, starts_with, is_among,
  text_eq, text_eq_refl, strip, lstrip, rstrip, is_space, Bool-cases, arith,
}
use relay_shell.Policy.{Patterns, Policy, check, decide, found, probe_of, verdict, Tier}
use relay_shell.Runner
use relay_shell.Runner.{Library, Call, run}
use relay_shell.Runner.Gate.{executed_iff, decision}
use relay_shell.Inventory.{HostSpec}
use relay_shell.SshPool.Connect.{Settings}
use relay_shell.Probe.{Addresses, canonical_ips, with_canonical_ips}
use relay_shell.Probe.Ips.{with_canonical_ips-contains, contains-after, contains-cons}
use relay_shell.Probe.Builders.{
  with_jump, forward_dhost, if_given, line_if_given, policy_text_ssh_exec, policy_text_ssh_spawn,
  policy_text_ssh_upload, policy_text_ssh_download, policy_text_ssh_forward,
}
use relay_shell.Probe.Builders.Sees.{policy_texts-Sees}
use relay_shell.Tools.{Work, Request, Given, call_of, request_with}
use relay_shell.Tools.Remote.{Target, ssh_exec, ssh_spawn, ssh_upload, ssh_download, ssh_forward}

-- A needle of a deny pattern: not empty and without white space.
abbrev pub IsNeedle : Text → Type 0
IsNeedle s = (s ≢ []) × All (λ c. is_space c ≡ false) s

starts_with-rstrip :
    (b s : Text)
    → All (λ c. is_space c ≡ false) b
    → starts_with b s ≡ true
    → starts_with b (rstrip s) ≡ true
unfolding starts_with rstrip
starts_with-rstrip [] s a h = refl
starts_with-rstrip (c ∷ b) [] a h = cc
starts_with-rstrip (c ∷ b) (d ∷ s) a h =
    let both : (c == d && starts_with b s) ≡ true = h in
    let rest = starts_with-rstrip b s a.1 (ground arith) in
    let solid : is_space d ≡ false = (let same : c ≡ d = ground arith in rw same at a.0) in
    rw solid (ground arith)

starts_with-contains : (b s : Text) → starts_with b s ≡ true → contains b s ≡ true
unfolding starts_with contains
starts_with-contains [] [] h = text_eq_refl []
starts_with-contains (c ∷ b) [] h = cc
starts_with-contains b (d ∷ s) h = ground arith

contains-full : (c : ℕ) (b s : Text) → contains (c ∷ b) s ≡ true → text_eq s [] ≡ false
unfolding contains text_eq
contains-full c b [] h = cc
contains-full c b (d ∷ s) h = refl

rstrip-cons : (d : ℕ) (s : Text) → text_eq (rstrip s) [] ≡ false → rstrip (d ∷ s) ≡ d ∷ rstrip s
unfolding rstrip
rstrip-cons d s h = ground arith

contains-rstrip :
    (c : ℕ) (b s : Text)
    → All (λ x. is_space x ≡ false) (c ∷ b)
    → contains (c ∷ b) s ≡ true
    → contains (c ∷ b) (rstrip s) ≡ true
unfolding contains
contains-rstrip c b [] n h = unfold rstrip in h
contains-rstrip c b (d ∷ s) n h = elim (Bool-cases (starts_with (c ∷ b) (d ∷ s))) [
  | inl here ↦
      starts_with-contains (c ∷ b) (rstrip (d ∷ s)) (starts_with-rstrip (c ∷ b) (d ∷ s) n here)
  | inr later ↦
      let rest : contains (c ∷ b) (rstrip s) ≡ true = contains-rstrip c b s n (rw later at h) in
      subst (λ t. contains (c ∷ b) t ≡ true)
        (sym (rstrip-cons d s (contains-full c b (rstrip s) rest)))
        (contains-cons (c ∷ b) d (rstrip s) rest)
]

contains-lstrip :
    (c : ℕ) (b s : Text)
    → is_space c ≡ false
    → contains (c ∷ b) s ≡ true
    → contains (c ∷ b) (lstrip s) ≡ true
unfolding contains lstrip starts_with
contains-lstrip c b [] n h = h
contains-lstrip c b (d ∷ s) n h = elim (Bool-cases (is_space d)) [
  | inl gap ↦
      let other : (c == d) ≡ false = ground arith in
      rw gap (contains-lstrip c b s n (rw other at h))
  | inr word ↦ rw word h
]

-- A needle that a text holds is found by the policy, which strips the text behind the tool's name.
probe-finds :
    (needle tool text : Text)
    → IsNeedle needle
    → contains needle text ≡ true
    → contains needle (probe_of tool text) ≡ true
unfolding probe_of strip
probe-finds [] tool text n h = absurd (n.0 refl)
probe-finds (c ∷ b) tool text n h = contains-rstrip c b (lstrip (tool ++ 32 ∷ text)) n.1 (
    contains-lstrip c b (tool ++ 32 ∷ text) n.1.0
      (contains-after (c ∷ b) tool (32 ∷ text) (contains-cons (c ∷ b) 32 text h)))

check-denied :
    (R : Patterns) (p : Policy) (tool text needle : Text) (least : Tier) (denies : Text → Bool)
    → p.deny ≡ some denies
    → ((t : Text) → contains needle t ≡ true → denies t ≡ true)
    → IsNeedle needle
    → contains needle text ≡ true
    → (check R p tool text least).allowed ≡ false
unfolding check decide verdict
check-denied R p tool text needle least denies deny finds n h =
    let hit : found p.deny (probe_of tool text) ≡ true =
      ap (λ o. found o (probe_of tool text)) deny
      ∙ (unfold found in finds (probe_of tool text) (probe-finds needle tool text n h)) in
    rw hit refl

pub request_with-text :
    (tool : Text) (args : Dict Text) (bound : ℤ) (work : Work) (o : Option Text) (r : Request)
    → request_with tool args bound work o ≡ some r
    → (o ≡ some r.policy_text) × (r.work ≡ work)
unfolding request_with
request_with-text tool args bound work none r e = absurd cc
request_with-text tool args bound work (some text) r e =
    (ap (λ q. ap_text q) e, ap (λ q. work_or work q) (sym e))
  where
    ap_text : Option Request → Option Text
    ap_text none = none
    ap_text (some q) = some q.policy_text

    work_or : Work → Option Request → Work
    work_or w none = w
    work_or w (some q) = q.work

-- The requests of the tools that dial a target, whatever else they are given.
pub data IsRemote (A : Addresses) (hosts : Dict HostSpec) (ssh : Settings) (s : Runner.Settings)
    (t : Target) (r : Request) : Type 0 where
  is_exec :
      (command : Text) (timeout : ℤ)
      → ssh_exec A hosts ssh s t command timeout ≡ some r
      → IsRemote A hosts ssh s t r
  is_spawn :
      (command : Text) (cols rows : ℤ)
      → ssh_spawn A hosts ssh s t command cols rows ≡ some r
      → IsRemote A hosts ssh s t r
  is_upload :
      (local_path remote_path : Text) (recursive : Bool) (timeout : ℤ)
      → ssh_upload A hosts ssh s t local_path remote_path recursive timeout ≡ some r
      → IsRemote A hosts ssh s t r
  is_download :
      (remote_path local_path : Text) (recursive : Bool) (timeout : ℤ)
      → ssh_download A hosts ssh s t remote_path local_path recursive timeout ≡ some r
      → IsRemote A hosts ssh s t r
  is_forward :
      (spec : Text) → ssh_forward A hosts ssh s t spec ≡ some r → IsRemote A hosts ssh s t r

-- The policy text that a request has, and the host among the tokens it is widened with.
abbrev Widened : Addresses → Text → Request → Type 0
Widened A host r =
    (text : Text) × ((toks : List Text) × ((with_canonical_ips A text toks ≡ some r.policy_text)
        × (is_among host (take 128 toks) ≡ true)))

first_token : (host : Text) (toks : List Text) → is_among host (take 128 (host ∷ toks)) ≡ true
unfolding is_among
first_token host toks = rw (text_eq_refl host) refl

second_token :
    (x host : Text) (toks : List Text)
    → host ≢ []
    → is_among host (take 128 (x ∷ (if_given host ++ toks))) ≡ true
unfolding is_among if_given
second_token x [] toks n = absurd (n refl)
second_token x (c ∷ s) toks n = rw (text_eq_refl (c ∷ s)) (ground arith)

remote-Widened :
    (A : Addresses) (hosts : Dict HostSpec) (ssh : Settings) (s : Runner.Settings) (t : Target)
    (r : Request)
    → t.host ≢ []
    → IsRemote A hosts ssh s t r
    → Widened A t.host r
unfolding ssh_exec ssh_spawn ssh_upload ssh_download ssh_forward policy_text_ssh_exec
    policy_text_ssh_spawn policy_text_ssh_upload policy_text_ssh_download policy_text_ssh_forward
remote-Widened A hosts ssh s t r n (is_exec command timeout e) =
    let jumped = with_jump (command ++ 10 ∷ t.host) t.jump in
    (
      jumped.0,
      (t.host ∷ jumped.1, ((request_with-text _ _ _ _ _ r e).0, first_token t.host jumped.1)),
    )
remote-Widened A hosts ssh s t r n (is_spawn command cols rows e) =
    let jumped = with_jump (command ++ 10 ∷ t.host) t.jump in
    (
      jumped.0,
      (t.host ∷ jumped.1, ((request_with-text _ _ _ _ _ r e).0, first_token t.host jumped.1)),
    )
remote-Widened A hosts ssh s t r n (is_upload local_path remote_path recursive timeout e) =
    let jumped =
      with_jump (codes "upload " ++ local_path ++ 32 ∷ (t.host ++ 58 ∷ remote_path)) t.jump in
    (
      jumped.0,
      (t.host ∷ jumped.1, ((request_with-text _ _ _ _ _ r e).0, first_token t.host jumped.1)),
    )
remote-Widened A hosts ssh s t r n (is_download remote_path local_path recursive timeout e) =
    let jumped =
      with_jump (codes "download " ++ t.host ++ 58 ∷ (remote_path ++ 32 ∷ local_path)) t.jump in
    (
      jumped.0,
      (t.host ∷ jumped.1, ((request_with-text _ _ _ _ _ r e).0, first_token t.host jumped.1)),
    )
remote-Widened A hosts ssh s t r n (is_forward spec e) =
    let jumped = with_jump (codes "forward " ++ spec) t.jump in
    (
      jumped.0 ++ line_if_given t.host,
      (
        forward_dhost spec ∷ (if_given t.host ++ jumped.1),
        ((request_with-text _ _ _ _ _ r e).0, second_token (forward_dhost spec) t.host jumped.1 n),
      ),
    )

remote_holds :
    (A : Addresses) (hosts : Dict HostSpec) (ssh : Settings) (s : Runner.Settings) (t : Target)
    (r : Request)
    → IsRemote A hosts ssh s t r
    → contains t.host r.policy_text ≡ true
unfolding ssh_exec ssh_spawn ssh_upload ssh_download ssh_forward
remote_holds A hosts ssh s t r (is_exec command timeout e) =
    let held = policy_texts-Sees A command [] [] t.host [] t.jump [] [] [] in
    (held.3 r.policy_text (request_with-text _ _ _ _ _ r e).0).1.1.0
remote_holds A hosts ssh s t r (is_spawn command cols rows e) =
    let held = policy_texts-Sees A command [] [] t.host [] t.jump [] [] [] in
    (held.4 r.policy_text (request_with-text _ _ _ _ _ r e).0).1.1.0
remote_holds A hosts ssh s t r (is_upload local_path remote_path recursive timeout e) =
    let held = policy_texts-Sees A [] [] [] t.host [] t.jump local_path remote_path [] in
    (held.8 r.policy_text (request_with-text _ _ _ _ _ r e).0).1.1.0
remote_holds A hosts ssh s t r (is_download remote_path local_path recursive timeout e) =
    let held = policy_texts-Sees A [] [] [] t.host [] t.jump local_path remote_path [] in
    (held.9 r.policy_text (request_with-text _ _ _ _ _ r e).0).1.0
remote_holds A hosts ssh s t r (is_forward spec e) =
    let held = policy_texts-Sees A [] [] [] t.host [] t.jump [] [] spec in
    (held.10 r.policy_text (request_with-text _ _ _ _ _ r e).0).0

-- The deny list finds the address in the policy text.
remote_found :
    (A : Addresses) (hosts : Dict HostSpec) (ssh : Settings) (s : Runner.Settings) (t : Target)
    (r : Request) (address : Text) (forms : List Text)
    → t.host ≢ []
    → IsRemote A hosts ssh s t r
    → canonical_ips A t.host ≡ some forms
    → is_among address forms ≡ true
    → contains address r.policy_text ≡ true
remote_found A hosts ssh s t r address forms named remote reads among =
    let (text, (toks, (widened, token))) = remote-Widened A hosts ssh s t r named remote in
    elim (with_canonical_ips-contains A text r.policy_text t.host address toks forms widened token
      reads among).1 [
        | inl self ↦ rw self (remote_holds A hosts ssh s t r remote)
        | inr held ↦ held
      ]

stays : (a b : ℕ) (q : Bool) → (a ≢ b → q ≡ true) → q ≡ false → a ≡ b
stays a b q f h = elim (Bool-cases (a == b)) [
  | inl same ↦ ground arith
  | inr other ↦ let differ : a ≢ b = λ e. ground arith in let on = f differ in cc
]

-- A literal address that the deny list names is not dialed by any other spelling: if the deny list
-- finds the address, which has no white space, in any text that holds it, no call of an SSH tool on
-- one target runs whose host, which is not empty, spells it, in the canonical form or in another that
-- `_canonical_ips` reads.
pub remote-denied :
    (A : Addresses) (hosts : Dict HostSpec) (ssh : Settings) (L : Library) (s : Runner.Settings)
    (policy : Policy) (t : Target) (r : Request) (g : Given) (w : Runner.World) (address : Text)
    (forms : List Text) (denies : Text → Bool)
    → policy.deny ≡ some denies
    → ((text : Text) → contains address text ≡ true → denies text ≡ true)
    → IsNeedle address
    → t.host ≢ []
    → IsRemote A hosts ssh s t r
    → canonical_ips A t.host ≡ some forms
    → is_among address forms ≡ true
    → (run L s policy (call_of r g) w).0.executed ≡ w.executed
remote-denied A hosts ssh L s policy t r g w address forms denies deny finds needle named remote
      reads among =
    let held = remote_found A hosts ssh s t r address forms named remote reads among in
    stays _ _ (decision L s policy (call_of r g)).allowed
      (λ ran. ((executed_iff L s policy (call_of r g) w).0 ran).1)
      (unfold call_of in
        check-denied L.patterns policy r.tool r.policy_text address Tier.read_only denies deny finds
          needle held)
