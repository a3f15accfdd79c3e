-- ===== src/Policy/Order.antt =====
-- The modes of `Policy.check` (src/relay_shell/policy.py).
use relay_shell.Prelude.{
  ℕ, ◌≡◌, refl, Bool, true, false, Text, ◌≤◌, ◌<◌, ◌↔◌, is_among, Bool-cases, inl, inr, ◌⊎◌, max,
  not, ◌&&◌, ◌||◌, leb, ◌==◌, arith, ap, ◌∙◌,
}
use relay_shell.Policy.{
  Tier, rank, max_tier, Basis, Patterns, Mode, Policy, found, is_read_only, is_stateful, probe_of,
  verdict, in_mode, decide, assess_text, assess, classify, check, read_only_tools,
}
use Tier.{read_only, reversible, stateful, irreversible}
use Mode.{open_mode, guarded, readonly}

rank-max_tier : (s t : Tier) → rank (max_tier s t) ≡ max (rank s) (rank t)
unfolding rank max_tier
rank-max_tier read_only t = omega arith
rank-max_tier reversible read_only = refl
rank-max_tier reversible reversible = refl
rank-max_tier reversible stateful = refl
rank-max_tier reversible irreversible = refl
rank-max_tier stateful read_only = refl
rank-max_tier stateful reversible = refl
rank-max_tier stateful stateful = refl
rank-max_tier stateful irreversible = refl
rank-max_tier irreversible read_only = refl
rank-max_tier irreversible reversible = refl
rank-max_tier irreversible stateful = refl
rank-max_tier irreversible irreversible = refl

is_stateful-rank : (t : Tier) → is_stateful t ≡ leb 2 (rank t)
unfolding rank is_stateful
is_stateful-rank read_only = refl
is_stateful-rank reversible = refl
is_stateful-rank stateful = refl
is_stateful-rank irreversible = refl

is_read_only-rank : (t : Tier) → is_read_only t ≡ (rank t == 0)
unfolding rank is_read_only
is_read_only-rank read_only = refl
is_read_only-rank reversible = refl
is_read_only-rank stateful = refl
is_read_only-rank irreversible = refl

rank-zero : (t : Tier) → rank t ≡ 0 → t ≡ read_only
unfolding rank
rank-zero read_only h = refl
rank-zero reversible h = ground arith
rank-zero stateful h = ground arith
rank-zero irreversible h = ground arith

rank_zero_iff : (t : Tier) → (rank t ≡ 0) ↔ (t ≡ read_only)
unfolding rank
rank_zero_iff t = (rank-zero t, λ e. ap rank e)

-- What a mode asks of a rank, where the allow list matched or did not.
admits : Mode → Bool → ℕ → Bool
admits open_mode listed r = true
admits guarded listed r = not (leb 2 r) || listed
admits readonly listed r = r == 0

in_mode-admits :
    (m : Mode) (listed : Bool) (t : Tier) (b : Basis)
    → (in_mode m listed t b).allowed ≡ admits m listed (rank t)
unfolding in_mode verdict admits
in_mode-admits open_mode listed t b = refl
in_mode-admits guarded listed t b = ground (arith, is_stateful-rank t)
in_mode-admits readonly listed t b = ground (arith, is_read_only-rank t)

decide-admits :
    (p : Policy) (probe : Text) (t : Tier) (b : Basis)
    → (decide p probe t b).allowed
      ≡ (not (found p.deny probe) && admits p.mode (found p.allow probe) (rank t))
unfolding decide verdict
decide-admits p probe t b = elim (Bool-cases (found p.deny probe)) [
  | inl e ↦ rw e refl
  | inr e ↦ rw e (in_mode-admits p.mode (found p.allow probe) t b)
]

-- The policy under another mode.
abbrev pub at : Mode → Policy → Policy
at m p = record { mode = m; deny = p.deny; allow = p.allow }

module _ (R : Patterns) where
  check-admits :
      (p : Policy) (tool command : Text) (floor : Tier)
      → (check R p tool command floor).allowed ≡ (
          not (found p.deny (probe_of tool command))
          && admits p.mode
              (found p.allow (probe_of tool command))
              (max (rank (classify R tool command)) (rank floor)))
  unfolding check classify
  check-admits p tool command floor =
      decide-admits p (probe_of tool command) _ _
      ∙ ap
          (λ r.
            not (found p.deny (probe_of tool command))
            && admits p.mode (found p.allow (probe_of tool command)) r)
          (rank-max_tier (assess R tool command).tier floor)

  rank-assess_text : (tool text : Text) → 1 ≤ rank (assess_text R tool text).tier
  unfolding assess_text rank
  rank-assess_text tool text = ground arith

  classify-zero :
      (tool command : Text)
      → (rank (classify R tool command) ≡ 0) ↔ (is_among tool read_only_tools ≡ true)
  unfolding classify assess rank
  classify-zero tool command = elim (Bool-cases (is_among tool read_only_tools)) [
    | inl e ↦ rw e (ground arith)
    | inr e ↦ rw e (ground (arith, rank-assess_text tool))
  ]

  -- In readonly mode a call is admitted exactly when the deny list does not match, its tool is in
  -- the read-only set, and no caller raised its tier.
  pub check-readonly :
      (p : Policy) (tool command : Text) (floor : Tier)
      → p.mode ≡ readonly
      → ((check R p tool command floor).allowed ≡ true)
        ↔ (found p.deny (probe_of tool command) ≡ false)
          × (is_among tool read_only_tools ≡ true)
          × (floor ≡ read_only)
  unfolding admits
  check-readonly p tool command floor m =
      rw (check-admits p tool command floor, m)
        (ground (arith, classify-zero tool command, rank_zero_iff floor))

  -- In guarded mode a call is admitted exactly when the deny list does not match and its tier,
  -- the caller's floor included, is below stateful or the allow list matches.
  pub check-guarded :
      (p : Policy) (tool command : Text) (floor : Tier)
      → p.mode ≡ guarded
      → ((check R p tool command floor).allowed ≡ true)
        ↔ (found p.deny (probe_of tool command) ≡ false)
          × (((rank (classify R tool command) < 2) × (rank floor < 2))
              ⊎ (found p.allow (probe_of tool command) ≡ true))
  unfolding admits
  check-guarded p tool command floor m = rw (check-admits p tool command floor, m) (ground arith)

  admits_floor :
      (m : Mode) (listed : Bool) (r low high : ℕ)
      → low ≤ high
      → admits m listed (max r high) ≡ true
      → admits m listed (max r low) ≡ true
  unfolding admits
  admits_floor open_mode listed r low high le h = refl
  admits_floor guarded listed r low high le h = ground arith
  admits_floor readonly listed r low high le h = ground arith

  -- A caller that raises the tier of a call is never admitted where the lower floor was refused,
  -- in any mode and under any lists.
  pub check-floor :
      (p : Policy) (tool command : Text) (low high : Tier)
      → rank low ≤ rank high
      → (check R p tool command high).allowed ≡ true
      → (check R p tool command low).allowed ≡ true
  check-floor p tool command low high le h = rw (check-admits p tool command low) (
      ground (
        arith,
        (rw (check-admits p tool command high) at h),
        admits_floor p.mode (found p.allow (probe_of tool command)) (rank (classify R tool command))
            (rank low) (rank high),
      ))

  -- The modes are ordered: what readonly admits guarded admits, and what guarded admits open
  -- admits, under the same lists.
  pub check-at :
      (p : Policy) (tool command : Text) (floor : Tier)
      → ((check R (at readonly p) tool command floor).allowed ≡ true
          → (check R (at guarded p) tool command floor).allowed ≡ true)
        × ((check R (at guarded p) tool command floor).allowed ≡ true
            → (check R (at open_mode p) tool command floor).allowed ≡ true)
  unfolding admits
  check-at p tool command floor =
      rw
        (
          check-admits (at readonly p) tool command floor,
          check-admits (at guarded p) tool command floor,
          check-admits (at open_mode p) tool command floor,
        )
        (ground arith)
