-- ===== src/Prelude/Removals.antt =====
-- Entries of a dict that are taken out one after the other.
use Prim.Native.Nat.{ℕ, zero, suc, ◌+◌}
use mathlib.Core.Path.{◌≡◌, refl}
use mathlib.Core.Bool.{false}
use mathlib.Core.List.{[], ◌∷◌}
use mathlib.Core.Option.{some}
use native.Mathlib.Omega.{arith}
use relay_shell.Prelude.Lists.{length, take, All}
use relay_shell.Prelude.Texts.{Text, text_eq_iff}
use relay_shell.Prelude.Dicts.{
  Dict, IsDict, get, has_key, remove, remove-IsDict, All-remove, get-remove, length-remove,
  get-has_key,
}

module _ {ℓ} {V : Type ℓ} where
  -- `for key in victims: del d[key]`
  unfoldable pub remove_all : Dict V → Dict V → Dict V
  remove_all [] d = d
  remove_all ((k, e) ∷ vs) d = remove_all vs (remove k d)

module _ {ℓ} {V : Type ℓ} where
  pub All-take {κ} : (P : Text × V → Type κ) (n : ℕ) (d : Dict V) → All P d → All P (take n d)
  All-take P zero d a = tt
  All-take P (suc n) [] a = tt
  All-take P (suc n) (p ∷ d) a = (a.0, All-take P n d a.1)

  pub All-remove_all {κ} :
      (P : Text × V → Type κ) (vs d : Dict V) → All P d → All P (remove_all vs d)
  unfolding remove_all
  All-remove_all P [] d a = a
  All-remove_all P ((k, e) ∷ vs) d a = All-remove_all P vs (remove k d) (All-remove P k d a)

  has_key-take :
      (n : ℕ) (k : Text) (d : Dict V) → has_key k d ≡ false → has_key k (take n d) ≡ false
  unfolding has_key
  has_key-take zero k d h = refl
  has_key-take (suc n) k [] h = refl
  has_key-take (suc n) k ((j, e) ∷ d) h = ground (arith, has_key-take n k d)

  pub take-IsDict : (n : ℕ) (d : Dict V) → IsDict d → IsDict (take n d)
  take-IsDict zero d h = tt
  take-IsDict (suc n) [] h = tt
  take-IsDict (suc n) ((k, e) ∷ d) h = (has_key-take n k d h.0, take-IsDict n d h.1)

  pub remove_all-IsDict : (vs d : Dict V) → IsDict d → IsDict (remove_all vs d)
  unfolding remove_all
  remove_all-IsDict [] d h = h
  remove_all-IsDict ((k, e) ∷ vs) d h = remove_all-IsDict vs (remove k d) (remove-IsDict k d h)

  -- Every victim is an entry of the store, so each removal takes one away.
  abbrev pub IsIn : Dict V → Text × V → Type ℓ
  IsIn d p = get p.0 d ≡ some p.1

  pub IsIn-remove :
      (k : Text) (vs d : Dict V)
      → IsDict d
      → has_key k vs ≡ false
      → All (IsIn d) vs
      → All (IsIn (remove k d)) vs
  unfolding has_key
  IsIn-remove k [] d h n a = tt
  IsIn-remove k ((j, e) ∷ vs) d h n a =
      ground (arith, get-remove k j d h, text_eq_iff j k, text_eq_iff k j, IsIn-remove k vs d h)

  pub length-remove_all :
      (vs d : Dict V)
      → IsDict d
      → IsDict vs
      → All (IsIn d) vs
      → length (remove_all vs d) + length vs ≡ length d
  unfolding remove_all
  length-remove_all [] d h w a = omega arith
  length-remove_all ((k, e) ∷ vs) d h w a = ground (
    arith,
    length-remove k d,
    get-has_key k d e a.0,
    length-remove_all vs (remove k d) (remove-IsDict k d h) w.1 (IsIn-remove k vs d h w.0 a.1),
  )

  -- An entry that is no victim stays.
  pub get-remove_all :
      (key : Text) (e : V) (vs d : Dict V)
      → IsDict d
      → has_key key vs ≡ false
      → get key d ≡ some e
      → get key (remove_all vs d) ≡ some e
  unfolding remove_all has_key
  get-remove_all key e [] d h n g = g
  get-remove_all key e ((k, x) ∷ vs) d h n g =
      get-remove_all key e vs (remove k d) (remove-IsDict k d h) (ground arith)
        (ground (arith, get-remove k key d h))
