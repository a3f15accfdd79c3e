-- ===== src/Policy/Examples.antt =====
-- The policy at concrete calls, with a small pattern table.
use relay_shell.Prelude.{strip, ◌≡◌, refl, true, false, some, none, codes, inr, is_among, text_eq}
use relay_shell.Policy.{
  Tier, max_tier, Patterns, Mode, Policy, found, probe_of, assess, check, read_only_tools,
}
use relay_shell.Policy.Continuation.{strip_line_continuations}
use relay_shell.Policy.Order.{check-guarded}
use Tier.{read_only, stateful}
use Mode.{guarded, readonly}

-- `rm -rf /` is irreversible, `reboot` is stateful, `sudo` wraps.
abbrev patterns : Patterns
unfolding text_eq
patterns = record {
  matches_tier3 = λ t. text_eq t (codes "rm -rf /");
  matches_tier2 = λ t. text_eq t (codes "reboot");
  priv_esc = λ t. false;
  priv_esc_eval_hint = λ t. false;
  blank_readers = λ t. t;
}

abbrev strict : Policy
strict = record { mode = readonly; deny = none; allow = none }

abbrev careful : Policy
unfolding text_eq
careful = record {
  mode = guarded;
  deny = none;
  allow = some (λ t. text_eq t (codes "shell_exec reboot"));
}

check-guarded_example :
    (check patterns careful (codes "shell_exec") (codes "reboot") read_only).allowed ≡ true
unfolding found text_eq probe_of strip
check-guarded_example =
    (check-guarded patterns careful (codes "shell_exec") (codes "reboot") read_only refl).1
      (refl, inr refl)

-- The pair goes outside single quotes and stays inside them.
strip_outside : strip_line_continuations (codes "r\\\nm") ≡ codes "rm"
unfolding strip_line_continuations
strip_outside = refl

strip_inside : strip_line_continuations (codes "'r\\\nm'") ≡ codes "'r\\\nm'"
unfolding strip_line_continuations
strip_inside = refl

-- The deny list, and a guarded call with no match.
assess_reboot : (assess patterns (codes "shell_exec") (codes "re\\\nboot")).tier ≡ stateful
unfolding assess is_among read_only_tools strip_line_continuations
assess_reboot = refl

refused_removal :
    (check patterns careful (codes "shell_exec") (codes "rm -rf /") read_only).allowed ≡ false
unfolding check careful max_tier assess is_among read_only_tools strip_line_continuations probe_of
    strip
refused_removal = refl
