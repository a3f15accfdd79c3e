-- ===== src/Metrics/Counts.antt =====
-- The counters under an increment (src/relay_shell/metrics.py).
use relay_shell.Prelude.{
  ℕ, ◌+◌, ◌≡◌, ◌↔◌, refl, true, List, [], ◌∷◌, Text, text_eq_iff, if◌then◌else◌, arith,
}
use relay_shell.Metrics.{Labels, Counters, labels_eq, increment, call_labels, inc_tool_call}

-- The value of a counter; an absent one is zero.
unfoldable pub counter : Labels → List (Labels × ℕ) → ℕ
counter ls [] = 0
counter ls ((ms, n) ∷ rest) = if labels_eq ms ls then n else counter ls rest

unfoldable pub total : List (Labels × ℕ) → ℕ
total [] = 0
total ((ms, n) ∷ rest) = n + total rest

labels_eq_refl : (ls : Labels) → labels_eq ls ls ≡ true
unfolding labels_eq
labels_eq_refl [] = refl
labels_eq_refl ((k, v) ∷ ls) = ground (arith, labels_eq_refl ls, text_eq_iff k k, text_eq_iff v v)

labels_eq_sound : (ls ms : Labels) → labels_eq ls ms ≡ true → ls ≡ ms
unfolding labels_eq
labels_eq_sound [] [] h = refl
labels_eq_sound [] (m ∷ ms) h = cc
labels_eq_sound (l ∷ ls) [] h = cc
labels_eq_sound ((k, v) ∷ ls) ((j, w) ∷ ms) h =
    ground (arith, labels_eq_sound ls ms, text_eq_iff k j, text_eq_iff v w)

labels_eq_iff : (ls ms : Labels) → (labels_eq ls ms ≡ true) ↔ (ls ≡ ms)
labels_eq_iff ls ms = (labels_eq_sound ls ms, λ e. rw e (labels_eq_refl ms))

counter-increment :
    (ls ms : Labels) (d : List (Labels × ℕ))
    → counter ms (increment ls d) ≡ (if labels_eq ls ms then 1 else 0) + counter ms d
unfolding counter increment
counter-increment ls ms [] = ground arith
counter-increment ls ms ((ks, n) ∷ d) = ground (
  arith,
  counter-increment ls ms d,
  labels_eq_iff ls ms,
  labels_eq_iff ks ls,
  labels_eq_iff ks ms,
)

total-increment : (ls : Labels) (d : List (Labels × ℕ)) → total (increment ls d) ≡ 1 + total d
unfolding total increment
total-increment ls [] = refl
total-increment ls ((ks, n) ∷ d) = ground (arith, total-increment ls d)

-- A counted call adds one to the counter of its labels and to the total, and leaves the counters
-- of all other labels and the syscall counters alone.
pub inc_tool_call-counter :
    (tool : Text) (tier : ℕ) (mode outcome : Text) (ms : Labels) (c : Counters)
    → let after = inc_tool_call tool tier mode outcome c in
      (counter ms after.tool_calls
        ≡ (if labels_eq (call_labels mode outcome tier tool) ms then 1 else 0)
          + counter ms c.tool_calls)
      × (total after.tool_calls ≡ 1 + total c.tool_calls)
      × (after.seccomp_events ≡ c.seccomp_events)
      × (after.seccomp_overflows ≡ c.seccomp_overflows)
unfolding inc_tool_call
inc_tool_call-counter tool tier mode outcome ms c = (
  counter-increment (call_labels mode outcome tier tool) ms c.tool_calls,
  total-increment (call_labels mode outcome tier tool) c.tool_calls,
  refl,
  refl,
)
