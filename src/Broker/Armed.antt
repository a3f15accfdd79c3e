-- ===== src/Broker/Armed.antt =====
-- The eviction order of the token store (src/relay_shell/broker.py).
use relay_shell.Prelude.{
  IsIn, IsIn-remove, remove_all, ℕ, zero, suc, ◌+◌, ◌-◌, ◌≤◌, ◌<◌, ◌≡◌, refl, inl, inr, true, false,
  [], ◌∷◌, some, Text, text_eq_iff, Dict, IsDict, get, remove, All, length, take, arith, tests,
  Bool-cases, ltb, if◌then◌else◌, get-remove, remove-IsDict,
}
use relay_shell.Broker.Store.{
  Entry, drop_expired, key_le, insert_sorted, sort_entries, evict, sweep_entries,
}
use relay_shell.Broker.Evict.{
  victims, victims-IsDict, victims-IsIn, drop_expired-IsDict, length-sort_entries,
}

unfoldable pub count_armed : Dict Entry → ℕ
count_armed [] = 0
count_armed ((k, e) ∷ d) = if e.armed then suc (count_armed d) else count_armed d

abbrev IsArmed : Text × Entry → Type 0
IsArmed p = p.1.armed ≡ true

abbrev IsUnarmed : Text × Entry → Type 0
IsUnarmed p = p.1.armed ≡ false

-- Behind the first armed entry all are armed.
abbrev UnarmedFirst : Dict Entry → Type 0
UnarmedFirst [] = Unit
UnarmedFirst ((k, e) ∷ d) = (e.armed ≡ true → All IsArmed d) × UnarmedFirst d

insert-IsArmed :
    (p : Text × Entry) (d : Dict Entry)
    → IsArmed p
    → All IsArmed d
    → All IsArmed (insert_sorted p d)
unfolding insert_sorted
insert-IsArmed p [] h a = (h, tt)
insert-IsArmed p (q ∷ d) h a = ground (arith, insert-IsArmed p d h a.1)

All-UnarmedFirst : (d : Dict Entry) → All IsArmed d → UnarmedFirst d
All-UnarmedFirst [] a = tt
All-UnarmedFirst (p ∷ d) a = (λ _. a.1, All-UnarmedFirst d a.1)

armed_behind : (x y : Entry) → x.armed ≡ true → key_le x y ≡ true → y.armed ≡ true
unfolding key_le
armed_behind x y h le = ground arith

armed_front : (x y : Entry) → y.armed ≡ true → key_le x y ≡ false → x.armed ≡ true
unfolding key_le
armed_front x y h gt = ground arith

insert-UnarmedFirst :
    (p : Text × Entry) (d : Dict Entry) → UnarmedFirst d → UnarmedFirst (insert_sorted p d)
unfolding insert_sorted
insert-UnarmedFirst p [] u = (λ _. tt, tt)
insert-UnarmedFirst p (q ∷ d) u = elim (Bool-cases (key_le p.1 q.1)) [
  | inl le ↦ rw le (λ h. (armed_behind p.1 q.1 h le, u.0 (armed_behind p.1 q.1 h le)), u)
  | inr gt ↦
      rw gt
        (λ h. insert-IsArmed p d (armed_front p.1 q.1 h gt) (u.0 h), insert-UnarmedFirst p d u.1)
]

sort-UnarmedFirst : (d : Dict Entry) → UnarmedFirst (sort_entries d)
unfolding sort_entries
sort-UnarmedFirst [] = tt
sort-UnarmedFirst (p ∷ d) = insert-UnarmedFirst p (sort_entries d) (sort-UnarmedFirst d)

count_armed-insert :
    (p : Text × Entry) (d : Dict Entry)
    → count_armed (insert_sorted p d) ≡ (if p.1.armed then suc (count_armed d) else count_armed d)
unfolding count_armed insert_sorted
count_armed-insert p [] = refl
count_armed-insert p (q ∷ d) = ground (arith, count_armed-insert p d)

count_armed-sort : (d : Dict Entry) → count_armed (sort_entries d) ≡ count_armed d
unfolding count_armed sort_entries
count_armed-sort [] = refl
count_armed-sort (p ∷ d) = ground (arith, count_armed-insert p (sort_entries d), count_armed-sort d)

count_armed-All : (d : Dict Entry) → All IsArmed d → count_armed d ≡ length d
unfolding count_armed
count_armed-All [] a = refl
count_armed-All (p ∷ d) a = ground (arith, count_armed-All d a.1)

-- What is taken from the front leaves the armed ones, if these fit in the rest.
take-IsUnarmed :
    (n : ℕ) (d : Dict Entry)
    → UnarmedFirst d
    → n + count_armed d ≤ length d
    → All IsUnarmed (take n d)
unfolding count_armed
take-IsUnarmed zero d u h = tt
take-IsUnarmed (suc n) [] u h = tt
take-IsUnarmed (suc n) ((k, e) ∷ d) u h = elim (Bool-cases e.armed) [
  | inl on ↦ absurd (ground (arith, count_armed-All d (u.0 on)))
  | inr off ↦ (off, take-IsUnarmed n d u.1 (ground arith))
]

get-remove_all_unarmed :
    (vs d : Dict Entry) (k : Text) (e : Entry)
    → IsDict d
    → IsDict vs
    → All (IsIn d) vs
    → All IsUnarmed vs
    → get k d ≡ some e
    → e.armed ≡ true
    → get k (remove_all vs d) ≡ some e
unfolding remove_all
get-remove_all_unarmed [] d k e h w a u g on = g
get-remove_all_unarmed ((j, v) ∷ vs) d k e h w a u g on =
    get-remove_all_unarmed vs (remove j d) k e (remove-IsDict j d h) w.1
      (IsIn-remove j vs d h w.0 a.1) u.1 (ground (arith, get-remove j k d h, text_eq_iff j k)) on

-- An armed entry stays in the store as long as the armed ones fit its bound.
pub get-evict_armed :
    (bound : ℕ) (d : Dict Entry) (k : Text) (e : Entry)
    → IsDict d
    → count_armed d ≤ bound
    → get k d ≡ some e
    → e.armed ≡ true
    → get k (evict bound d) ≡ some e
unfolding evict
get-evict_armed bound d k e h room g on = elim (Bool-cases (ltb bound (length d))) [
  | inl over ↦ rw over (
      get-remove_all_unarmed (victims bound d) d k e h (victims-IsDict bound d h)
        (victims-IsIn (length d - bound) d h)
        (take-IsUnarmed (length d - bound) (sort_entries d) (sort-UnarmedFirst d)
          (omega (tests, over, count_armed-sort d, length-sort_entries d)))
        g on)
  | inr fits ↦ rw fits g
]

pub get-drop_expired :
    (now : ℕ) (d : Dict Entry) (k : Text) (e : Entry)
    → IsDict d
    → get k d ≡ some e
    → now < e.expires_at
    → get k (drop_expired now d) ≡ some e
unfolding drop_expired get
get-drop_expired now [] k e h g live = cc
get-drop_expired now ((j, v) ∷ d) k e h g live = ground (arith, get-drop_expired now d k e h.1)

count_armed-drop_expired :
    (now : ℕ) (d : Dict Entry) → count_armed (drop_expired now d) ≤ count_armed d
unfolding drop_expired count_armed
count_armed-drop_expired now [] = omega arith
count_armed-drop_expired now ((j, v) ∷ d) = ground (arith, count_armed-drop_expired now d)

-- A sweep keeps a live armed entry as it is, provided the armed entries fit the bound.
pub get-sweep_armed :
    (now bound : ℕ) (d : Dict Entry) (k : Text) (e : Entry)
    → IsDict d
    → count_armed d ≤ bound
    → get k d ≡ some e
    → e.armed ≡ true
    → now < e.expires_at
    → get k (sweep_entries now bound d) ≡ some e
unfolding sweep_entries
get-sweep_armed now bound d k e h room g on live =
    get-evict_armed bound (drop_expired now d) k e (drop_expired-IsDict now d h)
      (omega (arith, count_armed-drop_expired now d)) (get-drop_expired now d k e h g live) on
