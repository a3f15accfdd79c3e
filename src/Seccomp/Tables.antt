-- ===== src/Seccomp/Tables.antt =====
-- The tables of src/relay_shell/seccomp.py: syscall numbers of x86_64, the notified syscalls, and
-- the words of a filter's return values.
use relay_shell.Prelude.{ℕ, List, [], ◌∷◌, none, some, Text, codes, Dict}
use relay_shell.Seccomp.{Notify, always}

unfoldable pub syscalls : Dict ℕ
syscalls =
    (codes "execve", 59)
    ∷ (codes "execveat", 322)
    ∷ (codes "ptrace", 101)
    ∷ (codes "mount", 165)
    ∷ (codes "umount2", 166)
    ∷ (codes "unshare", 272)
    ∷ (codes "setns", 308)
    ∷ (codes "chroot", 161)
    ∷ (codes "pivot_root", 155)
    ∷ (codes "setuid", 105)
    ∷ (codes "setgid", 106)
    ∷ (codes "setreuid", 113)
    ∷ (codes "setregid", 114)
    ∷ (codes "setresuid", 117)
    ∷ (codes "setresgid", 119)
    ∷ (codes "openat", 257)
    ∷ (codes "open", 2)
    ∷ (codes "creat", 85)
    ∷ (codes "openat2", 437)
    ∷ (codes "prctl", 157)
    ∷ []

unfoldable pub prctl_options : List ℕ
prctl_options = 4 ∷ 8 ∷ 22 ∷ 24 ∷ 28 ∷ 38 ∷ 47 ∷ []

-- `_Notify` with a flag test by `_O_WRITE_MASK`.
abbrev pub on_write : Text → ℕ → Notify
on_write name arg = record {
  name = name;
  flag_arg = some arg;
  flag_mask = 67;
  eq_arg = none;
  eq_values = [];
}

-- `NOTIFIED_SYSCALLS`
unfoldable pub notified : List Notify
unfolding prctl_options
notified =
    always (codes "execve")
    ∷ always (codes "execveat")
    ∷ always (codes "ptrace")
    ∷ always (codes "mount")
    ∷ always (codes "umount2")
    ∷ always (codes "unshare")
    ∷ always (codes "setns")
    ∷ always (codes "chroot")
    ∷ always (codes "pivot_root")
    ∷ always (codes "setuid")
    ∷ always (codes "setgid")
    ∷ always (codes "setreuid")
    ∷ always (codes "setregid")
    ∷ always (codes "setresuid")
    ∷ always (codes "setresgid")
    ∷ on_write (codes "openat") 2
    ∷ on_write (codes "open") 1
    ∷ always (codes "creat")
    ∷ always (codes "openat2")
    ∷ record {
      name = codes "prctl";
      flag_arg = none;
      flag_mask = 0;
      eq_arg = some 0;
      eq_values = prctl_options;
    }
    ∷ []

-- `_AUDIT_ARCH_X86_64`
unfoldable pub audit_arch : ℕ
audit_arch = 3221225534
