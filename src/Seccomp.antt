-- ===== src/Seccomp.antt =====
-- The seccomp filter (src/relay_shell/seccomp.py): the notified syscalls, the label assembler and
-- the program that it builds for x86_64.
pub mod Machine
pub mod Tables
pub mod Steps
pub mod Decides
mod Examples
use relay_shell.Prelude.{
  ℕ, zero, suc, ◌+◌, ◌-◌, ◌*◌, Bool, true, false, ◌&&◌, ◌||◌, List, [], ◌∷◌, ◌++◌, Option, none,
  some, Text, codes, Dict, get, put, length, leb, ltb, if◌then◌else◌, text_eq, show_nat,
}

-- The instruction codes that the program uses: LD_W_ABS 0x20, JEQ_K 0x15, JSET_K 0x45, JA 0x05 and
-- RET_K 0x06.
pub data Opcode : Type 0 where
  ld_w_abs jeq_k jset_k ja_k ret_k : Opcode

-- `struct sock_filter`
pub record Insn : Type 0 where
  pub code : Opcode
  pub jt : ℕ
  pub jf : ℕ
  pub k : ℕ

-- An entry of `_ins`, with its labels.
pub data Line : Type 0 where
  stmt_line : Opcode → ℕ → Line
  jump_line : Opcode → ℕ → Text → Text → Line
  ja_line : Text → Line

-- `_Assembler`
pub record Assembler : Type 0 where
  pub ins : List Line
  pub labels : Dict ℕ

unfoldable pub fall : Text
fall = codes "@fall"

unfoldable pub label : Text → Assembler → Assembler
label name a = record a { labels = put name (length a.ins) a.labels }

unfoldable pub stmt : Opcode → ℕ → Assembler → Assembler
stmt code k a = record a { ins = a.ins ++ stmt_line code k ∷ [] }

unfoldable pub jump : Opcode → ℕ → Text → Text → Assembler → Assembler
jump code k jt jf a = record a { ins = a.ins ++ jump_line code k jt jf ∷ [] }

unfoldable pub ja : Text → Assembler → Assembler
ja target a = record a { ins = a.ins ++ ja_line target ∷ [] }

-- The distance to a label from the next instruction; `none` is the raised error.
unfoldable pub distance : ℕ → Option ℕ → Option ℕ
distance next none = none
distance next (some place) = if leb next place then some (place - next) else none

unfoldable pub offset : Dict ℕ → ℕ → Text → Option ℕ
unfolding distance fall
offset labels next target =
    if text_eq target fall then some 0 else distance next (get target labels)

-- `0 <= jt_off <= 255 and 0 <= jf_off <= 255`
unfoldable pub branch : Opcode → ℕ → Option ℕ → Option ℕ → Option Insn
branch code k (some jt) (some jf) =
    if leb jt 255 && leb jf 255
    then some (record { code = code; jt = jt; jf = jf; k = k })
    else none
branch code k _ _ = none

unfoldable pub assemble_line : Dict ℕ → ℕ → Line → Option Insn
unfolding offset distance branch
assemble_line labels next (stmt_line code k) = some (record { code = code; jt = 0; jf = 0; k = k })
assemble_line labels next (jump_line code k jt jf) =
    branch code k (offset labels next jt) (offset labels next jf)
assemble_line labels next (ja_line target) = elim (distance next (get target labels)) [
  | none ↦ none
  | some off ↦ some (record { code = ja_k; jt = 0; jf = 0; k = off })
]

unfoldable pub both : Option Insn → Option (List Insn) → Option (List Insn)
both (some i) (some is) = some (i ∷ is)
both _ _ = none

unfoldable pub assemble_from : Dict ℕ → ℕ → List Line → Option (List Insn)
unfolding assemble_line both
assemble_from labels idx [] = some []
assemble_from labels idx (l ∷ ls) =
    both (assemble_line labels (suc idx) l) (assemble_from labels (suc idx) ls)

unfoldable pub assemble : Assembler → Option (List Insn)
unfolding assemble_from
assemble a = assemble_from a.labels 0 a.ins

-- `_Notify`; the predicate is a flag test, an equality with one of some values, or none.
pub record Notify : Type 0 where
  pub name : Text
  pub flag_arg : Option ℕ
  pub flag_mask : ℕ
  pub eq_arg : Option ℕ
  pub eq_values : List ℕ

abbrev pub always : Text → Notify
always name = record { name = name; flag_arg = none; flag_mask = 0; eq_arg = none; eq_values = [] }

unfoldable pub is_unconditional : Notify → Bool
is_unconditional n = elim n.flag_arg [
  | some i ↦ false
  | none ↦ elim n.eq_arg [ some i ↦ false | none ↦ true ]
]

-- The tests for a value, the last of which falls to ALLOW.
unfoldable pub eq_tests : List ℕ → Assembler → Assembler
unfolding jump fall
eq_tests [] a = a
eq_tests (v ∷ []) a = jump jeq_k v (codes "notify") (codes "allow") a
eq_tests (v ∷ w ∷ vs) a = eq_tests (w ∷ vs) (jump jeq_k v (codes "notify") fall a)

unfoldable pub or_zero : Option ℕ → ℕ
or_zero none = 0
or_zero (some i) = i

-- The block of a conditional syscall.
unfoldable pub check_block : ℕ → Notify → Assembler → Assembler
unfolding label stmt jump eq_tests or_zero
check_block i n a =
    let a = label (codes "ck" ++ show_nat i) a in
    elim n.flag_arg [
      | some arg ↦
          jump jset_k n.flag_mask (codes "notify") (codes "allow") (stmt ld_w_abs (16 + arg * 8) a)
      | none ↦ eq_tests n.eq_values (stmt ld_w_abs (16 + or_zero n.eq_arg * 8) a)
    ]

unfoldable pub check_blocks : ℕ → List Notify → Assembler → Assembler
unfolding check_block
check_blocks i [] a = a
check_blocks i (n ∷ ns) a = check_blocks (suc i) ns (check_block i n a)

-- An equality test without a value, for which the source refuses to build.
unfoldable pub is_empty_test : Notify → Bool
is_empty_test n = elim n.eq_arg [
  | none ↦ false
  | some i ↦ elim n.eq_values [ [] ↦ true | v ∷ vs ↦ false ]
]

unfoldable pub has_empty_test : List Notify → Bool
unfolding is_empty_test
has_empty_test [] = false
has_empty_test (n ∷ ns) = is_empty_test n || has_empty_test ns

module _ (table : Dict ℕ) where
  unfoldable pub number : Notify → ℕ
  number n = elim (get n.name table) [ none ↦ 0 | some nr ↦ nr ]

  -- The first loop jumps to NOTIFY for an unconditional syscall and collects the others; a syscall
  -- without a number is passed over.
  unfoldable pub unconditional : List Notify → List Notify
  unfolding is_unconditional
  unconditional [] = []
  unconditional (n ∷ ns) =
      let rest = unconditional ns in
      elim (get n.name table) [
        | none ↦ rest
        | some nr ↦ if is_unconditional n then n ∷ rest else rest
      ]

  unfoldable pub conditional : List Notify → List Notify
  unfolding is_unconditional
  conditional [] = []
  conditional (n ∷ ns) =
      let rest = conditional ns in
      elim (get n.name table) [
        | none ↦ rest
        | some nr ↦ if is_unconditional n then rest else n ∷ rest
      ]

  unfoldable pub notify_jumps : List Notify → Assembler → Assembler
  unfolding jump number fall
  notify_jumps [] a = a
  notify_jumps (n ∷ ns) a = notify_jumps ns (jump jeq_k (number n) (codes "notify") fall a)

  unfoldable pub check_jumps : ℕ → List Notify → Assembler → Assembler
  unfolding jump number fall
  check_jumps i [] a = a
  check_jumps i (n ∷ ns) a =
      check_jumps (suc i) ns (jump jeq_k (number n) (codes "ck" ++ show_nat i) fall a)

  -- `build_filter`
  unfoldable pub build_filter : ℕ → List Notify → Option (List Insn)
  unfolding stmt jump ja label fall notify_jumps check_jumps check_blocks unconditional conditional
      assemble has_empty_test
  build_filter arch specs =
      let a = stmt ld_w_abs 4 record { ins = []; labels = [] } in
      let a = stmt ld_w_abs 0 (jump jeq_k arch fall (codes "allow") a) in
      let a =
        ja (codes "allow")
          (check_jumps 0 (conditional specs) (notify_jumps (unconditional specs) a)) in
      let a =
        stmt ret_k 2147418112 (label (codes "allow") (check_blocks 0 (conditional specs) a)) in
      if has_empty_test specs
      then none
      else assemble (stmt ret_k 2143289344 (label (codes "notify") a))
