-- ===== src/Notices.antt =====
-- Notices on unsafe calls (src/relay_shell/notices.py), at the sources' words.
use relay_shell.Prelude.{
  ◌+◌, ◌-◌, ◌≡◌, refl, Bool, true, false, ◌&&◌, inl, inr, Bool-cases, List, [], ◌∷◌, ◌++◌, Option,
  none, some, Text, codes, text_eq, Dict, get, ltb, if◌then◌else◌, show_nat, take, length, ◌↔◌,
  arith,
}
use relay_shell.Policy.{Tier, rank, is_stateful, Basis, PolicyDecision}
use Tier.{read_only, reversible, stateful, irreversible}
use Basis.{
  read_only_tool, irreversible_pattern, privilege_pattern, stateful_pattern, mutating_tool,
  default_basis, raised_by_tool,
}

-- `tier.name`
unfoldable pub tier_name : Tier → Text
tier_name read_only = codes "READ_ONLY"
tier_name reversible = codes "REVERSIBLE"
tier_name stateful = codes "STATEFUL"
tier_name irreversible = codes "IRREVERSIBLE"

-- The `BASIS_*` strings of src/relay_shell/policy.py.
unfoldable pub basis_text : Basis → Text
basis_text read_only_tool = codes "read-only tool"
basis_text irreversible_pattern = codes "matched an irreversible-operation pattern"
basis_text privilege_pattern = codes "matched a privilege-escalation pattern"
basis_text stateful_pattern = codes "matched a state-changing pattern"
basis_text mutating_tool = codes "the tool changes local or remote state"
basis_text default_basis = codes "arbitrary command with no state-changing pattern"
basis_text raised_by_tool = codes "raised by the tool (a target the command text does not show)"

-- `_TIER_ADVICE`, which has no entry for the lower tiers.
unfoldable pub tier_advice : Tier → Option Text
tier_advice irreversible = some (
    codes
      "It may not be undoable and ran with no confirmation step; verify the target and take a backup or snapshot first")
tier_advice stateful = some (codes "It changes state that a user or dependent service may notice")
tier_advice _ = none

unfoldable pub privilege_advice : Text
privilege_advice =
    codes "It runs with elevated privileges and can change anything the target account can"

unfoldable pub advice : Basis → Tier → Option Text
unfolding tier_advice privilege_advice
advice privilege_pattern t = some privilege_advice
advice _ t = tier_advice t

unfoldable pub tier_note : PolicyDecision → Text → Text
tier_note d words =
    codes "tier "
    ++ show_nat (rank d.tier)
    ++ codes " ("
    ++ tier_name d.tier
    ++ codes "), "
    ++ basis_text d.basis
    ++ codes ". "
    ++ words
    ++ codes ". Classification is a heuristic, not a boundary"

unfoldable pub tier_notes : PolicyDecision → List Text
unfolding advice tier_note is_stateful
tier_notes d =
    if is_stateful d.tier
    then elim (advice d.basis d.tier) [ none ↦ [] | some words ↦ tier_note d words ∷ [] ]
    else []

-- `str.lower` of an ASCII letter.
unfoldable pub lower : Text → Text
lower [] = []
lower (c ∷ s) = (if ltb 64 c && ltb c 91 then 32 + c else c) ∷ lower s

unfoldable pub is_unverified : Option Text → Bool
unfolding lower
is_unverified none = false
is_unverified (some t) = text_eq (lower t) (codes "ignore")

unfoldable pub host_key_notes : Dict Text → List Text
unfolding is_unverified
host_key_notes args =
    if is_unverified (get (codes "known_hosts") args)
    then codes
        "ssh: host-key verification is off (known_hosts=ignore); the peer is not authenticated and the connection can be intercepted"
      ∷ []
    else []

unfoldable pub call_notices : PolicyDecision → Dict Text → List Text
unfolding tier_notes host_key_notes
call_notices d args = tier_notes d ++ host_key_notes args

-- `", ".join(hosts)`
unfoldable pub join_hosts : List Text → Text
join_hosts [] = []
join_hosts (h ∷ []) = h
join_hosts (h ∷ k ∷ hs) = h ++ codes ", " ++ join_hosts (k ∷ hs)

unfoldable pub unverified_host_notice : List Text → List Text
unfolding join_hosts
unverified_host_notice [] = []
unverified_host_notice (h ∷ hs) =
    (codes "ssh: host-key verification is off for "
      ++ join_hosts (take 5 (h ∷ hs))
      ++ (if ltb 5 (length (h ∷ hs))
          then codes " and " ++ show_nat (length (h ∷ hs) - 5) ++ codes " more"
          else [])
      ++ codes
          " (known_hosts=ignore); the peer is not authenticated and the connection can be intercepted")
    ∷ []

unfoldable pub format_notices : List Text → Text
format_notices [] = []
format_notices (n ∷ ns) = codes "\n[NOTICE " ++ n ++ 93 ∷ format_notices ns

-- The standard JSON module: the text with the notices inside, if it is a JSON object.
module _ (with_notices : Text → List Text → Option Text) where
  unfoldable pub attach_notices : Text → List Text → Bool → Text
  unfolding format_notices
  attach_notices text [] as_json = text
  attach_notices text (n ∷ ns) false = text ++ format_notices (n ∷ ns)
  attach_notices text (n ∷ ns) true = elim (with_notices text (n ∷ ns)) [
    | some inside ↦ inside
    | none ↦ text ++ format_notices (n ∷ ns)
  ]

tier_advice-some : (t : Tier) → is_stateful t ≡ true → (w : Text) × (tier_advice t ≡ some w)
unfolding tier_advice is_stateful
tier_advice-some read_only h = cc
tier_advice-some reversible h = cc
tier_advice-some stateful h = (_, refl)
tier_advice-some irreversible h = (_, refl)

advice-some : (b : Basis) (t : Tier) → is_stateful t ≡ true → (w : Text) × (advice b t ≡ some w)
unfolding advice
advice-some read_only_tool t h = tier_advice-some t h
advice-some irreversible_pattern t h = tier_advice-some t h
advice-some privilege_pattern t h = (_, refl)
advice-some stateful_pattern t h = tier_advice-some t h
advice-some mutating_tool t h = tier_advice-some t h
advice-some default_basis t h = tier_advice-some t h
advice-some raised_by_tool t h = tier_advice-some t h

tier_notes-none : (d : PolicyDecision) → (tier_notes d ≡ []) ↔ (is_stateful d.tier ≡ false)
tier_notes-none d = elim (Bool-cases (is_stateful d.tier)) [
  | inl e ↦
      let (w, f) = advice-some d.basis d.tier e in unfold tier_notes in rw (e, f) (ground arith)
  | inr e ↦ unfold tier_notes in rw e (ground arith)
]

host_key_notes-none :
    (args : Dict Text)
    → (host_key_notes args ≡ []) ↔ (is_unverified (get (codes "known_hosts") args) ≡ false)
unfolding host_key_notes
host_key_notes-none args = elim (Bool-cases (is_unverified (get (codes "known_hosts") args))) [
  | inl e ↦ rw e (ground arith)
  | inr e ↦ rw e (ground arith)
]

append_none : (a b : List Text) → (a ++ b ≡ []) ↔ (a ≡ []) × (b ≡ [])
append_none [] b = ground arith
append_none (x ∷ a) b = ground arith

-- A call gets no notice exactly when its tier is below stateful and its host keys are checked.
pub call_notices-none :
    (d : PolicyDecision) (args : Dict Text)
    → (call_notices d args ≡ [])
      ↔ (is_stateful d.tier ≡ false) × (is_unverified (get (codes "known_hosts") args) ≡ false)
call_notices-none d args =
    unfold call_notices in
    ground (
      arith,
      append_none (tier_notes d) (host_key_notes args),
      tier_notes-none d,
      host_key_notes-none args,
    )
