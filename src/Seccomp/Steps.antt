-- ===== src/Seccomp/Steps.antt =====
-- Steps of the filter machine of Seccomp/Machine over the shapes of code in a filter.
use relay_shell.Prelude.{
  ℕ, zero, suc, ◌+◌, ◌≤◌, ◌≡◌, refl, Bool, true, false, not, ◌||◌, List, [], ◌∷◌, ◌++◌, some,
  length, drop, ◌==◌, if◌then◌else◌, arith, Bool-cases, inl, inr, ap, ◌∙◌,
}
use Prim.Native.Nat.{bit_and}
use relay_shell.Seccomp.{Opcode, Insn}
use relay_shell.Seccomp.Machine.{Data, exec, load}
use Opcode.{ld_w_abs, jeq_k, jset_k, ret_k}

unfoldable pub is_one_of : ℕ → List ℕ → Bool
is_one_of n [] = false
is_one_of n (k ∷ ks) = n == k || is_one_of n ks

-- A run of equality tests that jump to one place.
unfoldable pub jeqs : List ℕ → ℕ → List Insn
jeqs [] far = []
jeqs (k ∷ ks) far = record { code = jeq_k; jt = length ks + far; jf = 0; k = k } ∷ jeqs ks far

pub drop-jeqs :
    (ks : List ℕ) (far n : ℕ) (is : List Insn)
    → n ≡ length ks + far
    → drop n (jeqs ks far ++ is) ≡ drop far is
unfolding jeqs
drop-jeqs [] far n is h = ap (λ i. drop i is) (omega arith)
drop-jeqs (k ∷ ks) far zero is h = absurd (omega arith)
drop-jeqs (k ∷ ks) far (suc n) is h = drop-jeqs ks far n is (omega arith)

unfoldable pub ret : ℕ → Insn
ret r = record { code = ret_k; jt = 0; jf = 0; k = r }

pub exec-ret :
    (d : Data) (fuel acc r : ℕ) (is : List Insn) → 1 ≤ fuel → exec d fuel acc (ret r ∷ is) ≡ some r
unfolding exec ret
exec-ret d zero acc r is h = absurd (omega arith)
exec-ret d (suc fuel) acc r is h = refl

unfoldable pub op : Opcode → ℕ → ℕ → ℕ → Insn
op code jt jf k = record { code = code; jt = jt; jf = jf; k = k }

pub exec-jeq :
    (d : Data) (fuel acc jt jf k : ℕ) (is : List Insn) (b : Bool)
    → (acc == k) ≡ b
    → exec d (suc fuel) acc (op jeq_k jt jf k ∷ is)
      ≡ exec d fuel acc (drop (if b then jt else jf) is)
unfolding exec op
exec-jeq d fuel acc jt jf k is true h = rw (h, exec) refl
exec-jeq d fuel acc jt jf k is false h = rw (h, exec) refl

pub exec-jset :
    (d : Data) (fuel acc jt jf k : ℕ) (is : List Insn) (b : Bool)
    → (bit_and acc k == 0) ≡ b
    → exec d (suc fuel) acc (op jset_k jt jf k ∷ is)
      ≡ exec d fuel acc (drop (if b then jf else jt) is)
unfolding exec op
exec-jset d fuel acc jt jf k is true h = rw (h, exec) refl
exec-jset d fuel acc jt jf k is false h = rw (h, exec) refl

pub exec-ld :
    (d : Data) (fuel acc k w : ℕ) (is : List Insn)
    → load d k ≡ w
    → exec d (suc fuel) acc (op ld_w_abs 0 0 k ∷ is) ≡ exec d fuel w is
unfolding exec op
exec-ld d fuel acc k w is h = ap (λ v. exec d fuel v is) h

-- A flag test jumps to one of two returns.
pub exec-flags :
    (d : Data) (fuel acc k w jt jf mask yes_word no_word : ℕ) (is yes_rest no_rest : List Insn)
    → load d k ≡ w
    → drop jt is ≡ ret yes_word ∷ yes_rest
    → drop jf is ≡ ret no_word ∷ no_rest
    → 1 ≤ fuel
    → exec d (suc (suc fuel)) acc (op ld_w_abs 0 0 k ∷ op jset_k jt jf mask ∷ is)
      ≡ some (if not (bit_and w mask == 0) then yes_word else no_word)
exec-flags d fuel acc k w jt jf mask yes_word no_word is yes_rest no_rest loaded there else_there
      enough =
    elim (Bool-cases (bit_and w mask == 0)) [
      | inl e ↦ rw e (
          exec-ld d (suc fuel) acc k w _ loaded
          ∙ exec-jset d fuel w jt jf mask is true e
          ∙ ap (λ t. exec d fuel w t) else_there
          ∙ exec-ret d fuel w no_word no_rest enough)
      | inr e ↦ rw e (
          exec-ld d (suc fuel) acc k w _ loaded
          ∙ exec-jset d fuel w jt jf mask is false e
          ∙ ap (λ t. exec d fuel w t) there
          ∙ exec-ret d fuel w yes_word yes_rest enough)
    ]

pub exec-jeqs :
    (d : Data) (ks : List ℕ) (far fuel n acc r : ℕ) (is rest : List Insn)
    → drop far is ≡ ret r ∷ rest
    → 1 ≤ fuel
    → n ≡ length ks + fuel
    → exec d n acc (jeqs ks far ++ is) ≡ (if is_one_of acc ks then some r else exec d fuel acc is)
unfolding is_one_of jeqs op
exec-jeqs d [] far fuel n acc r is rest there enough h = ap (λ m. exec d m acc is) (omega arith)
exec-jeqs d (k ∷ ks) far fuel zero acc r is rest there enough h = absurd (omega arith)
exec-jeqs d (k ∷ ks) far fuel (suc n) acc r is rest there enough h =
    let later = exec-jeqs d ks far fuel n acc r is rest there enough (omega arith) in
    elim (Bool-cases (acc == k)) [
      | inl e ↦
          exec-jeq d n acc (length ks + far) 0 k (jeqs ks far ++ is) true e
          ∙ ap (λ t. exec d n acc t) (drop-jeqs ks far (length ks + far) is refl ∙ there)
          ∙ exec-ret d n acc r rest (omega arith)
          ∙ rw e refl
      | inr e ↦
          exec-jeq d n acc (length ks + far) 0 k (jeqs ks far ++ is) false e ∙ later ∙ rw e refl
    ]
