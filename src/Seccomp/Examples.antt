-- ===== src/Seccomp/Examples.antt =====
-- The filter at a writing `openat`.
use relay_shell.Prelude.{◌≡◌, [], ◌∷◌, some, length, get, text_eq}
use relay_shell.Seccomp.Tables.{notified, audit_arch}
use relay_shell.Seccomp.Machine.{Data, exec}
use relay_shell.Seccomp.Decides.{build_filter-decides, program, build_filter-program, is_notified}

-- `openat(AT_FDCWD, path, O_WRONLY | O_CREAT)`
abbrev writing : Data
writing = record { nr = 257; arch = 3221225534; args = 100 ∷ 5000 ∷ 65 ∷ [] }

build_filter-decides_example : exec writing (length program) 0 program ≡ some 2143289344
unfolding is_notified audit_arch notified get text_eq
build_filter-decides_example = build_filter-decides program writing build_filter-program
