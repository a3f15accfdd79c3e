-- ===== src/Broker/Evict.antt =====
-- The sweep of the token store (src/relay_shell/broker.py).
use relay_shell.Prelude.{
  ℕ, ◌+◌, ◌-◌, ◌≤◌, ◌<◌, ◌≡◌, refl, ◌∙◌, inl, inr, true, false, [], ◌∷◌, Text, text_eq, text_eq_iff,
  Dict, IsDict, has_key, All, length, take, arith, Bool-cases, ltb, leb, if◌then◌else◌, entries-get,
  length-take, All-take, All-remove_all, take-IsDict, remove_all-IsDict, IsIn, length-remove_all,
}
use relay_shell.Broker.Store.{
  Entry, drop_expired, key_le, insert_sorted, sort_entries, evict, sweep_entries,
}

-- Anything that holds of every entry still holds after a sweep.
module _ {κ} (P : Text × Entry → Type κ) where
  All-drop_expired : (now : ℕ) (d : Dict Entry) → All P d → All P (drop_expired now d)
  unfolding drop_expired
  All-drop_expired now [] a = tt
  All-drop_expired now ((k, e) ∷ d) a = elim (Bool-cases (leb e.expires_at now)) [
    | inl gone ↦ rw gone (All-drop_expired now d a.1)
    | inr live ↦ rw live (a.0, All-drop_expired now d a.1)
  ]

  All-insert_sorted :
      (p : Text × Entry) (d : Dict Entry) → P p → All P d → All P (insert_sorted p d)
  unfolding insert_sorted
  All-insert_sorted p [] h a = (h, tt)
  All-insert_sorted p (q ∷ d) h a = elim (Bool-cases (key_le p.1 q.1)) [
    | inl le ↦ rw le (h, a)
    | inr gt ↦ rw gt (a.0, All-insert_sorted p d h a.1)
  ]

  All-sort_entries : (d : Dict Entry) → All P d → All P (sort_entries d)
  unfolding sort_entries
  All-sort_entries [] a = tt
  All-sort_entries (p ∷ d) a = All-insert_sorted p (sort_entries d) a.0 (All-sort_entries d a.1)

  All-evict : (bound : ℕ) (d : Dict Entry) → All P d → All P (evict bound d)
  unfolding evict
  All-evict bound d a = elim (Bool-cases (ltb bound (length d))) [
    | inl over ↦ rw over (All-remove_all P (take (length d - bound) (sort_entries d)) d a)
    | inr fits ↦ rw fits a
  ]

  pub All-sweep_entries :
      (now bound : ℕ) (d : Dict Entry) → All P d → All P (sweep_entries now bound d)
  unfolding sweep_entries
  All-sweep_entries now bound d a = All-evict bound (drop_expired now d) (All-drop_expired now d a)

-- What is left after the first half of a sweep has not expired.
abbrev pub IsLive : ℕ → Text × Entry → Type 0
IsLive now p = now < p.1.expires_at

drop_expired-IsLive : (now : ℕ) (d : Dict Entry) → All (IsLive now) (drop_expired now d)
unfolding drop_expired
drop_expired-IsLive now [] = tt
drop_expired-IsLive now ((k, e) ∷ d) = ground (arith, drop_expired-IsLive now d)

pub sweep_entries-IsLive :
    (now bound : ℕ) (d : Dict Entry) → All (IsLive now) (sweep_entries now bound d)
unfolding sweep_entries
sweep_entries-IsLive now bound d =
    All-evict (IsLive now) bound (drop_expired now d) (drop_expired-IsLive now d)

-- Keys stay distinct.
has_key-drop_expired :
    (now : ℕ) (k : Text) (d : Dict Entry)
    → has_key k d ≡ false
    → has_key k (drop_expired now d) ≡ false
unfolding drop_expired has_key
has_key-drop_expired now k [] h = refl
has_key-drop_expired now k ((j, e) ∷ d) h = ground (arith, has_key-drop_expired now k d)

pub drop_expired-IsDict : (now : ℕ) (d : Dict Entry) → IsDict d → IsDict (drop_expired now d)
unfolding drop_expired
drop_expired-IsDict now [] h = tt
drop_expired-IsDict now ((k, e) ∷ d) h =
    ground (arith, has_key-drop_expired now k d, drop_expired-IsDict now d h.1)

has_key-insert_sorted :
    (k : Text) (p : Text × Entry) (d : Dict Entry)
    → has_key k (insert_sorted p d) ≡ (if text_eq p.0 k then true else has_key k d)
unfolding has_key insert_sorted
has_key-insert_sorted k p [] = refl
has_key-insert_sorted k p (q ∷ d) = ground (arith, has_key-insert_sorted k p d)

has_key-sort_entries : (k : Text) (d : Dict Entry) → has_key k (sort_entries d) ≡ has_key k d
unfolding has_key sort_entries
has_key-sort_entries k [] = refl
has_key-sort_entries k (p ∷ d) =
    ground (arith, has_key-insert_sorted k p (sort_entries d), has_key-sort_entries k d)

insert_sorted-IsDict :
    (p : Text × Entry) (d : Dict Entry)
    → has_key p.0 d ≡ false
    → IsDict d
    → IsDict (insert_sorted p d)
unfolding insert_sorted has_key
insert_sorted-IsDict p [] n h = (refl, tt)
insert_sorted-IsDict p (q ∷ d) n h = ground (
  arith,
  has_key-insert_sorted q.0 p d,
  insert_sorted-IsDict p d,
  text_eq_iff p.0 q.0,
  text_eq_iff q.0 p.0,
)

sort_entries-IsDict : (d : Dict Entry) → IsDict d → IsDict (sort_entries d)
unfolding sort_entries
sort_entries-IsDict [] h = tt
sort_entries-IsDict (p ∷ d) h =
    insert_sorted-IsDict p (sort_entries d) (has_key-sort_entries p.0 d ∙ h.0)
      (sort_entries-IsDict d h.1)

pub evict-IsDict : (bound : ℕ) (d : Dict Entry) → IsDict d → IsDict (evict bound d)
unfolding evict
evict-IsDict bound d h = elim (Bool-cases (ltb bound (length d))) [
  | inl over ↦ rw over (remove_all-IsDict (take (length d - bound) (sort_entries d)) d h)
  | inr fits ↦ rw fits h
]

pub sweep_entries-IsDict :
    (now bound : ℕ) (d : Dict Entry) → IsDict d → IsDict (sweep_entries now bound d)
unfolding sweep_entries
sweep_entries-IsDict now bound d h =
    evict-IsDict bound (drop_expired now d) (drop_expired-IsDict now d h)

length-insert_sorted :
    (p : Text × Entry) (d : Dict Entry) → length (insert_sorted p d) ≡ length d + 1
unfolding insert_sorted
length-insert_sorted p [] = omega arith
length-insert_sorted p (q ∷ d) = ground (arith, length-insert_sorted p d)

pub length-sort_entries : (d : Dict Entry) → length (sort_entries d) ≡ length d
unfolding sort_entries
length-sort_entries [] = refl
length-sort_entries (p ∷ d) =
    omega (arith, length-insert_sorted p (sort_entries d), length-sort_entries d)

abbrev pub victims : ℕ → Dict Entry → Dict Entry
victims bound d = take (length d - bound) (sort_entries d)

pub victims-IsDict : (bound : ℕ) (d : Dict Entry) → IsDict d → IsDict (victims bound d)
victims-IsDict bound d h = take-IsDict (length d - bound) (sort_entries d) (sort_entries-IsDict d h)

pub victims-IsIn : (n : ℕ) (d : Dict Entry) → IsDict d → All (IsIn d) (take n (sort_entries d))
victims-IsIn n d h =
    All-take (IsIn d) n (sort_entries d) (All-sort_entries (IsIn d) d (entries-get d h))

pub length-evict : (bound : ℕ) (d : Dict Entry) → IsDict d → length (evict bound d) ≤ bound
unfolding evict
length-evict bound d h = ground (
  arith,
  length-remove_all (take (length d - bound) (sort_entries d)) d h (victims-IsDict bound d h)
      (victims-IsIn (length d - bound) d h),
  length-take (length d - bound) (sort_entries d),
  length-sort_entries d,
)

pub length-sweep_entries :
    (now bound : ℕ) (d : Dict Entry) → IsDict d → length (sweep_entries now bound d) ≤ bound
unfolding sweep_entries
length-sweep_entries now bound d h =
    length-evict bound (drop_expired now d) (drop_expired-IsDict now d h)
