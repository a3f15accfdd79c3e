-- ===== src/Metrics/Examples.antt =====
-- The metrics at concrete inputs.
use relay_shell.Prelude.{◌≡◌, refl, [], ◌∷◌, codes}
use relay_shell.Metrics.{Counters, format_labels}

abbrev none_yet : Counters
none_yet = record { tool_calls = []; seccomp_events = []; seccomp_overflows = [] }

formatted : format_labels ((codes "syscall", codes "a\\b") ∷ []) ≡ codes "{syscall=\"a\\\\b\"}"
unfolding format_labels
formatted = refl
