-- ===== src/Prelude/Dicts.antt =====
-- A Python dict keyed by text: entries in insertion order, an assignment to a present key in place.
use Prim.Native.Nat.{◌+◌, ◌≤◌}
use mathlib.Core.Path.{◌≡◌, refl, sym, subst}
use mathlib.Core.Logic.{inl, inr}
use mathlib.Core.Bool.{Bool, true, false}
use mathlib.Core.List.{List, [], ◌∷◌}
use mathlib.Core.Option.{Option, none, some}
use native.Mathlib.Omega.{arith}
use relay_shell.Prelude.Tests.{if◌then◌else◌, Bool-cases}
use relay_shell.Prelude.Lists.{length, All}
use relay_shell.Prelude.Texts.{Text, text_eq, text_eq_iff, text_eq_refl, text_eq_sound}

abbrev pub Dict {ℓ} : Type ℓ → Type ℓ
Dict V = List (Text × V)

module _ {ℓ} {V : Type ℓ} where
  unfoldable pub get : Text → Dict V → Option V
  get k [] = none
  get k ((j, v) ∷ d) = if text_eq j k then some v else get k d

  unfoldable pub has_key : Text → Dict V → Bool
  has_key k [] = false
  has_key k ((j, v) ∷ d) = if text_eq j k then true else has_key k d

  unfoldable pub put : Text → V → Dict V → Dict V
  put k v [] = (k, v) ∷ []
  put k v ((j, w) ∷ d) = if text_eq j k then (j, v) ∷ d else (j, w) ∷ put k v d

  unfoldable pub remove : Text → Dict V → Dict V
  remove k [] = []
  remove k ((j, v) ∷ d) = if text_eq j k then d else (j, v) ∷ remove k d

  unfoldable pub values : Dict V → List V
  values [] = []
  values ((j, v) ∷ d) = v ∷ values d

module _ {ℓ} {V : Type ℓ} where
  pub get-put :
      (k j : Text) (v : V) (d : Dict V)
      → get j (put k v d) ≡ (if text_eq k j then some v else get j d)
  unfolding get put
  get-put k j v [] = refl
  get-put k j v ((i, w) ∷ d) =
      ground (arith, text_eq_iff k j, text_eq_iff i k, text_eq_iff i j, get-put k j v d)

  pub has_key-get : (k : Text) (d : Dict V) → get k d ≡ none → has_key k d ≡ false
  unfolding get has_key
  has_key-get k [] h = refl
  has_key-get k ((j, v) ∷ d) h = ground (arith, has_key-get k d)

  pub get-has_key : (k : Text) (d : Dict V) (v : V) → get k d ≡ some v → has_key k d ≡ true
  unfolding get has_key
  get-has_key k [] v h = cc
  get-has_key k ((j, w) ∷ d) v h = ground (arith, get-has_key k d v)

  pub has_key-remove_ne :
      (k j : Text) (d : Dict V) → has_key j d ≡ false → has_key j (remove k d) ≡ false
  unfolding has_key remove
  has_key-remove_ne k j [] h = refl
  has_key-remove_ne k j ((i, w) ∷ d) h = ground (arith, has_key-remove_ne k j d)

  pub length-put-le : (k : Text) (v : V) (d : Dict V) → length (put k v d) ≤ length d + 1
  unfolding put
  length-put-le k v [] = omega arith
  length-put-le k v ((j, w) ∷ d) = ground (arith, length-put-le k v d)

  pub length-put :
      (k : Text) (v : V) (d : Dict V)
      → length (put k v d) ≡ (if has_key k d then length d else length d + 1)
  unfolding put has_key
  length-put k v [] = refl
  length-put k v ((j, w) ∷ d) = ground (arith, length-put k v d)

  pub length-remove :
      (k : Text) (d : Dict V) → length (remove k d) + (if has_key k d then 1 else 0) ≡ length d
  unfolding remove has_key
  length-remove k [] = omega arith
  length-remove k ((j, w) ∷ d) = ground (arith, length-remove k d)

  -- A dict holds a key once.
  abbrev pub IsDict : Dict V → Type 0
  IsDict [] = Unit
  IsDict ((k, v) ∷ d) = (has_key k d ≡ false) × IsDict d

  pub has_key-put :
      (k j : Text) (v : V) (d : Dict V)
      → has_key j (put k v d) ≡ (if text_eq k j then true else has_key j d)
  unfolding has_key put
  has_key-put k j v [] = refl
  has_key-put k j v ((i, w) ∷ d) =
      ground (arith, text_eq_iff k j, text_eq_iff i k, text_eq_iff i j, has_key-put k j v d)

  pub put-IsDict : (k : Text) (v : V) (d : Dict V) → IsDict d → IsDict (put k v d)
  unfolding put has_key
  put-IsDict k v [] h = (refl, tt)
  put-IsDict k v ((j, w) ∷ d) h =
      ground (arith, has_key-put k j v d, put-IsDict k v d h.1, text_eq_iff j k, text_eq_iff k j)

  pub remove-IsDict : (k : Text) (d : Dict V) → IsDict d → IsDict (remove k d)
  unfolding remove
  remove-IsDict k [] h = tt
  remove-IsDict k ((j, w) ∷ d) h = ground (arith, has_key-remove_ne k j d, remove-IsDict k d h.1)

  pub get_of_has_key : (j : Text) (d : Dict V) → has_key j d ≡ false → get j d ≡ none
  unfolding get has_key
  get_of_has_key j [] h = refl
  get_of_has_key j ((i, v) ∷ d) h = ground (arith, get_of_has_key j d)

  pub get-remove :
      (k j : Text) (d : Dict V)
      → IsDict d
      → get j (remove k d) ≡ (if text_eq k j then none else get j d)
  unfolding get remove
  get-remove k j [] h = ground arith
  get-remove k j ((i, w) ∷ d) h = ground (
    arith,
    text_eq_iff k j,
    text_eq_iff i k,
    text_eq_iff i j,
    get-remove k j d h.1,
    get_of_has_key j d,
  )

  pub has_key-remove :
      (k j : Text) (d : Dict V)
      → IsDict d
      → has_key j (remove k d) ≡ (if text_eq k j then false else has_key j d)
  unfolding has_key remove
  has_key-remove k j [] h = ground arith
  has_key-remove k j ((i, w) ∷ d) h =
      ground (arith, text_eq_iff k j, text_eq_iff i k, text_eq_iff i j, has_key-remove k j d h.1)

  -- Whatever holds of every entry holds of the one that is looked up.
  pub All-get {κ} :
      (P : Text × V → Type κ) (k : Text) (d : Dict V) (v : V)
      → All P d
      → get k d ≡ some v
      → P (k, v)
  unfolding get
  All-get P k [] v a h = cc
  All-get P k ((j, w) ∷ d) v a h = elim (Bool-cases (text_eq j k)) [
    | inl same ↦
        let here : (j, w) ≡ (k, v) = ground (arith, text_eq_sound j k same) in subst P here a.0
    | inr other ↦ All-get P k d v a.1 (rw other at h)
  ]

  pub All-remove {κ} :
      (P : Text × V → Type κ) (k : Text) (d : Dict V) → All P d → All P (remove k d)
  unfolding remove
  All-remove P k [] a = tt
  All-remove P k ((j, w) ∷ d) a = elim (Bool-cases (text_eq j k)) [
    | inl same ↦ rw same a.1
    | inr other ↦ rw other (a.0, All-remove P k d a.1)
  ]

  -- An assignment keeps what holds of the others, if the new value has it at every spelling.
  pub All-put {κ} :
      (P : Text × V → Type κ) (k : Text) (v : V) (d : Dict V)
      → P (k, v)
      → All P d
      → All P (put k v d)
  unfolding put
  All-put P k v [] p a = (p, tt)
  All-put P k v ((j, w) ∷ d) p a = elim (Bool-cases (text_eq j k)) [
    | inl same ↦ rw same (subst (λ x. P (x, v)) (sym (text_eq_sound j k same)) p, a.1)
    | inr other ↦ rw other (a.0, All-put P k v d p a.1)
  ]

  pub All-imp {κ λ'} :
      (P : Text × V → Type κ) (Q : Text × V → Type λ')
      → ((k : Text) (v : V) → P (k, v) → Q (k, v))
      → (d : Dict V) → All P d
      → All Q d
  All-imp P Q f [] a = tt
  All-imp P Q f ((j, w) ∷ d) a = (f j w a.0, All-imp P Q f d a.1)

  -- Each entry of a dict is what its key looks up.
  pub entries-get : (d : Dict V) → IsDict d → All (λ p. get p.0 d ≡ some p.1) d
  unfolding get
  entries-get [] h = tt
  entries-get ((j, w) ∷ d) h = (
    ground (arith, text_eq_refl j),
    All-imp (λ p. get p.0 d ≡ some p.1) (λ p. get p.0 ((j, w) ∷ d) ≡ some p.1)
        (λ k v e. ground (arith, text_eq_iff j k, get-has_key k d v)) d (entries-get d h.1),
  )

  -- Adding a new key and deleting it again changes nothing.
  pub remove-put_new :
      (k : Text) (v : V) (d : Dict V) → has_key k d ≡ false → remove k (put k v d) ≡ d
  unfolding remove put has_key
  remove-put_new k v [] h = ground (arith, text_eq_refl k)
  remove-put_new k v ((j, w) ∷ d) h = ground (arith, remove-put_new k v d)
