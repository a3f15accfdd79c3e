-- ===== src/Seccomp/Machine.antt =====
-- The kernel's reading of a filter program: the five instructions, over `struct seccomp_data`.
use relay_shell.Prelude.{
  ℕ, zero, suc, ◌-◌, ◌/◌, ◌%◌, ◌^◌, true, false, List, [], ◌∷◌, Option, none, some, drop, get_elem?,
  ◌==◌, if◌then◌else◌,
}
use Prim.Native.Nat.{bit_and}
use relay_shell.Seccomp.{Opcode, Insn}
use Opcode.{ld_w_abs, jeq_k, jset_k, ja_k, ret_k}

-- `struct seccomp_data`, without the instruction pointer.
pub record Data : Type 0 where
  pub nr : ℕ
  pub arch : ℕ
  pub args : List ℕ

unfoldable pub low_word : Option ℕ → ℕ
low_word none = 0
low_word (some a) = a % 2 ^ 32

-- The 32-bit word at a byte offset, little-endian.
unfoldable pub load : Data → ℕ → ℕ
unfolding low_word
load d k =
    if k == 0 then d.nr else if k == 4 then d.arch else low_word (get_elem? d.args ((k - 16) / 8))

-- A program runs forward, so its length is fuel enough.
unfoldable pub exec : Data → ℕ → ℕ → List Insn → Option ℕ
unfolding load
exec d zero acc is = none
exec d (suc fuel) acc [] = none
exec d (suc fuel) acc (i ∷ is) = elim i.code [
  | ld_w_abs ↦ exec d fuel (load d i.k) is
  | jeq_k ↦ elim (acc == i.k) [
    | true ↦ exec d fuel acc (drop i.jt is)
    | false ↦ exec d fuel acc (drop i.jf is)
  ]
  | jset_k ↦ elim (bit_and acc i.k == 0) [
    | true ↦ exec d fuel acc (drop i.jf is)
    | false ↦ exec d fuel acc (drop i.jt is)
  ]
  | ja_k ↦ exec d fuel acc (drop i.k is)
  | ret_k ↦ some i.k
]
