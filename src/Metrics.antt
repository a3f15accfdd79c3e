-- ===== src/Metrics.antt =====
-- The counters and the label format of the metrics (src/relay_shell/metrics.py).
pub mod Escapes
pub mod Counts
mod Examples
use relay_shell.Prelude.{
  ℕ, zero, suc, ◌+◌, Bool, true, false, ◌&&◌, ◌||◌, List, [], ◌∷◌, ◌++◌, Text, codes, text_eq, ltb,
  ◌==◌, if◌then◌else◌, show_nat,
}
use Escapes.{escape_label_value}

-- `_LabelKey`
abbrev pub Labels : Type 0
Labels = List (Text × Text)

unfoldable pub text_le : Text → Text → Bool
text_le [] t = true
text_le (c ∷ s) [] = false
text_le (c ∷ s) (d ∷ t) = ltb c d || (c == d && text_le s t)

-- `sorted(labels.items())`; the keys of a dict differ.
unfoldable pub insert_label : Text × Text → Labels → Labels
unfolding text_le
insert_label l [] = l ∷ []
insert_label l (m ∷ ms) =
    let rest = insert_label l ms in if text_le l.0 m.0 then l ∷ m ∷ ms else m ∷ rest

unfoldable pub sort_labels : Labels → Labels
unfolding insert_label
sort_labels [] = []
sort_labels (l ∷ ls) = insert_label l (sort_labels ls)

unfoldable pub format_label : Text × Text → Text
unfolding escape_label_value
format_label (k, v) = k ++ codes "=\"" ++ escape_label_value v ++ codes "\""

-- `",".join(parts)`
unfoldable pub join_labels : Labels → Text
unfolding format_label
join_labels [] = []
join_labels (l ∷ []) = format_label l
join_labels (l ∷ m ∷ ls) = format_label l ++ codes "," ++ join_labels (m ∷ ls)

unfoldable pub format_labels : Labels → Text
unfolding join_labels sort_labels
format_labels [] = []
format_labels (l ∷ ls) = codes "{" ++ join_labels (sort_labels (l ∷ ls)) ++ codes "}"

unfoldable pub labels_eq : Labels → Labels → Bool
labels_eq [] [] = true
labels_eq [] (m ∷ ms) = false
labels_eq (l ∷ ls) [] = false
labels_eq ((k, v) ∷ ls) ((j, w) ∷ ms) = (text_eq k j && text_eq v w) && labels_eq ls ms

-- `counter[labels] += 1` in a `defaultdict(int)`.
unfoldable pub increment : Labels → List (Labels × ℕ) → List (Labels × ℕ)
unfolding labels_eq
increment ls [] = (ls, 1) ∷ []
increment ls ((ms, n) ∷ rest) =
    if labels_eq ms ls then (ms, suc n) ∷ rest else (ms, n) ∷ increment ls rest

-- `_counters`, a field for each counter that the writers name.
pub record Counters : Type 0 where
  pub tool_calls : List (Labels × ℕ)
  pub seccomp_events : List (Labels × ℕ)
  pub seccomp_overflows : List (Labels × ℕ)

unfoldable pub call_labels : Text → Text → ℕ → Text → Labels
call_labels mode outcome tier tool =
    (codes "mode", mode)
    ∷ (codes "outcome", outcome)
    ∷ (codes "tier", show_nat tier)
    ∷ (codes "tool", tool)
    ∷ []

unfoldable pub inc_tool_call : Text → ℕ → Text → Text → Counters → Counters
unfolding increment call_labels
inc_tool_call tool tier mode outcome c = record c {
  tool_calls = increment (call_labels mode outcome tier tool) c.tool_calls;
}

unfoldable pub inc_seccomp_event : Text → Counters → Counters
unfolding increment
inc_seccomp_event syscall c = record c {
  seccomp_events = increment ((codes "syscall", syscall) ∷ []) c.seccomp_events;
}

unfoldable pub inc_seccomp_overflow : Counters → Counters
unfolding increment
inc_seccomp_overflow c = record c { seccomp_overflows = increment [] c.seccomp_overflows }
