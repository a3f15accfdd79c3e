-- ===== src/Seccomp/Decides.antt =====
-- The assembled filter against the notified set (src/relay_shell/seccomp.py).
use relay_shell.Prelude.{
  ℕ, suc, ◌+◌, ◌≡◌, refl, Bool, true, false, not, ◌&&◌, ◌||◌, List, [], ◌∷◌, ◌++◌, Option, none,
  some, get, put, get_elem?, text_eq, length, ◌==◌, if◌then◌else◌, arith, Bool-cases, inl, inr,
  show_nat, ap, subst, ◌∙◌, sym,
}
use Prim.Native.Nat.{bit_and}
use relay_shell.Seccomp.{Opcode, Insn, Notify, build_filter, number}
use relay_shell.Seccomp.Machine.{Data, exec, load, low_word}
use relay_shell.Seccomp.Tables.{syscalls, notified, prctl_options, audit_arch}
use Opcode.{ld_w_abs, jeq_k, jset_k, ja_k}
use relay_shell.Seccomp.Steps.{
  is_one_of, jeqs, ret, op, exec-ret, exec-jeqs, exec-jeq, exec-ld, exec-flags,
}

-- What an entry of the notified set says of a call: its predicate on the low word of an argument.
unfoldable pub holds : Notify → Data → Bool
unfolding is_one_of low_word
holds n d = elim n.flag_arg [
  | some i ↦ not (bit_and (low_word (get_elem? d.args i)) n.flag_mask == 0)
  | none ↦ elim n.eq_arg [
    | some i ↦ is_one_of (low_word (get_elem? d.args i)) n.eq_values
    | none ↦ true
  ]
]

unfoldable pub is_notified : List Notify → Data → Bool
unfolding holds number syscalls
is_notified [] d = false
is_notified (n ∷ ns) d = (d.nr == number syscalls n && holds n d) || is_notified ns d

unconditional_numbers : List ℕ
unconditional_numbers =
    59 ∷ 322 ∷ 101 ∷ 165 ∷ 166 ∷ 272 ∷ 308 ∷ 161 ∷ 155 ∷ 105 ∷ 106 ∷ 113 ∷ 114 ∷ 117 ∷ 119 ∷ 85
    ∷ 437 ∷ []

-- The program behind the unconditional tests.
tail_part : List Insn
unfolding op ret jeqs
tail_part =
    op jeq_k 3 0 257
    ∷ op jeq_k 4 0 2
    ∷ op jeq_k 5 0 157
    ∷ op ja_k 0 0 12
    ∷ op ld_w_abs 0 0 32
    ∷ op jset_k 11 10 67
    ∷ op ld_w_abs 0 0 24
    ∷ op jset_k 9 8 67
    ∷ op ld_w_abs 0 0 16
    ∷ (jeqs (4 ∷ 8 ∷ 22 ∷ 24 ∷ 28 ∷ 38 ∷ 47 ∷ []) 1 ++ ret 2147418112 ∷ ret 2143289344 ∷ [])

unfoldable pub program : List Insn
unfolding op jeqs unconditional_numbers tail_part
program =
    op ld_w_abs 0 0 4
    ∷ op jeq_k 0 34 3221225534
    ∷ op ld_w_abs 0 0 0
    ∷ (jeqs unconditional_numbers 17 ++ tail_part)

pub build_filter-program : build_filter syscalls audit_arch notified ≡ some program
unfolding build_filter syscalls audit_arch notified program get text_eq put show_nat
build_filter-program = refl

-- What the tail makes of a call that no unconditional test took.
tail_answer : Data → Bool
tail_answer d =
    if d.nr == 257
    then not (bit_and (low_word (get_elem? d.args 2)) 67 == 0)
    else if d.nr == 2
    then not (bit_and (low_word (get_elem? d.args 1)) 67 == 0)
    else if d.nr == 157
    then is_one_of (low_word (get_elem? d.args 0)) prctl_options
    else false

answer : Bool → Option ℕ
answer b = some (if b then 2143289344 else 2147418112)

some_if : (b : Bool) (m n : ℕ) → (if b then some m else some n) ≡ some (if b then m else n)
some_if true m n = refl
some_if false m n = refl

exec-options :
    (d : Data) (fuel acc w : ℕ) (ks : List ℕ)
    → load d 16 ≡ w
    → exec d
        (suc (length ks + suc fuel))
        acc
        (op ld_w_abs 0 0 16 ∷ (jeqs ks 1 ++ ret 2147418112 ∷ ret 2143289344 ∷ []))
      ≡ answer (is_one_of w ks)
unfolding answer
exec-options d fuel acc w ks loaded =
    exec-ld d (length ks + suc fuel) acc 16 w _ loaded
    ∙ exec-jeqs d ks 1 (suc fuel) (length ks + suc fuel) w 2143289344 _ [] refl (omega arith) refl
    ∙ ap (λ o. if is_one_of w ks then some 2143289344 else o)
        (exec-ret d (suc fuel) w 2147418112 _ (omega arith))
    ∙ some_if (is_one_of w ks) 2143289344 2147418112

exec-tail : (d : Data) → exec d 18 d.nr tail_part ≡ answer (tail_answer d)
unfolding tail_part tail_answer answer prctl_options
exec-tail d = elim (Bool-cases (d.nr == 257)) [
  | inl e ↦ rw e (
      exec-jeq d 17 d.nr 3 0 257 _ true e
      ∙ exec-flags d 15 d.nr 32 (low_word (get_elem? d.args 2)) 11 10 67 _ _ _ _ _
          (unfold load in refl) (unfold jeqs ret op in refl) (unfold jeqs ret op in refl)
          (omega arith))
  | inr e ↦ elim (Bool-cases (d.nr == 2)) [
    | inl f ↦
        rw (e, f)
          (exec-jeq d 17 d.nr 3 0 257 _ false e
            ∙ exec-jeq d 16 d.nr 4 0 2 _ true f
            ∙ exec-flags d 14 d.nr 24 (low_word (get_elem? d.args 1)) 9 8 67 _ _ _ _ _
                (unfold load in refl) (unfold jeqs ret op in refl) (unfold jeqs ret op in refl)
                (omega arith))
    | inr f ↦ elim (Bool-cases (d.nr == 157)) [
      | inl g ↦
          rw (e, f, g)
            (exec-jeq d 17 d.nr 3 0 257 _ false e
              ∙ exec-jeq d 16 d.nr 4 0 2 _ false f
              ∙ exec-jeq d 15 d.nr 5 0 157 _ true g
              ∙ exec-options d 6 d.nr (low_word (get_elem? d.args 0)) prctl_options
                  (unfold load in refl))
      | inr g ↦
          rw (e, f, g)
            (exec-jeq d 17 d.nr 3 0 257 _ false e
              ∙ exec-jeq d 16 d.nr 4 0 2 _ false f
              ∙ exec-jeq d 15 d.nr 5 0 157 _ false g
              ∙ (unfold exec jeqs ret op in refl))
    ]
  ]
]

is_notified-tail :
    (d : Data)
    → is_notified notified d
      ≡ (if is_one_of d.nr unconditional_numbers then true else tail_answer d)
unfolding is_notified notified syscalls prctl_options number holds get text_eq is_one_of
    unconditional_numbers tail_answer
is_notified-tail d = ground arith

tested :
    (b c : Bool) (o : Option ℕ)
    → o ≡ answer c
    → (if b then some 2143289344 else o) ≡ answer (if b then true else c)
unfolding answer
tested true c o h = refl
tested false c o h = h

exec-program :
    (d : Data)
    → exec d (length program) 0 program ≡ answer (d.arch == audit_arch && is_notified notified d)
unfolding program audit_arch answer
exec-program d = elim (Bool-cases (d.arch == 3221225534)) [
  | inr e ↦ rw e (
      exec-ld d 37 0 4 d.arch _ (unfold load in refl)
      ∙ exec-jeq d 36 d.arch 0 34 3221225534 _ false e
      ∙ (unfold exec jeqs tail_part unconditional_numbers op ret in refl))
  | inl e ↦
      rw (e, is_notified-tail d)
        (exec-ld d 37 0 4 d.arch _ (unfold load in refl)
          ∙ exec-jeq d 36 d.arch 0 34 3221225534 _ true e
          ∙ exec-ld d 35 d.arch 0 d.nr _ (unfold load in refl)
          ∙ exec-jeqs d unconditional_numbers 17 18 35 d.nr 2143289344 tail_part []
              (unfold tail_part jeqs ret op in refl) (omega arith)
              (unfold unconditional_numbers in refl)
          ∙ tested (is_one_of d.nr unconditional_numbers) (tail_answer d) (exec d 18 d.nr tail_part)
              (exec-tail d))
]

-- For every call, the program that `build_filter` assembles for x86_64 runs to its end and returns
-- USER_NOTIF if the call is of that architecture and matches an entry of the notified set, number
-- and predicate, and ALLOW if not.
pub build_filter-decides :
    (is : List Insn) (d : Data)
    → build_filter syscalls audit_arch notified ≡ some is
    → exec d (length is) 0 is
      ≡ some (if d.arch == audit_arch && is_notified notified d then 2143289344 else 2147418112)
build_filter-decides is d h =
    let same : some program ≡ some is = sym build_filter-program ∙ h in
    let e : program ≡ is = cc in
    unfold answer in
    subst (λ p. exec d (length p) 0 p ≡ answer (d.arch == audit_arch && is_notified notified d)) e
      (exec-program d)
