-- ===== src/SshPool/Evictions.antt =====
-- The entries that `_select_conn_evictions` names (src/relay_shell/sshpool.py).
use relay_shell.Prelude.{
  ℕ, ◌+◌, ◌-◌, ◌≤◌, ◌<◌, max, ltb, ◌≡◌, ◌≢◌, refl, Bool, true, false, [], ◌∷◌, some, Text, Dict,
  IsDict, get, has_key, text_eq, text_eq_iff, ◌==◌, leb, if◌then◌else◌, arith, All, All-get,
  All-take, take-IsDict, remove_all, length-remove_all, get-remove_all, IsIn, entries-get, length,
  take, length-take, Bool-cases, inl, inr, has_key-get, count_if, Option-cases,
}
use relay_shell.SshPool.Cache.{Entry, insert_by_use, unpinned_by_use, select_conn_evictions}

unfoldable pub is_idle : Text × Entry → Bool
is_idle p = p.1.pins == 0

unfoldable pub is_pinned : Text × Entry → Bool
is_pinned p = ltb 0 p.1.pins

module _ {κ} (P : Text × Entry → Type κ) where
  All-insert_by_use :
      (x : Text × Entry) (d : Dict Entry) → P x → All P d → All P (insert_by_use x d)
  unfolding insert_by_use
  All-insert_by_use x [] h a = (h, tt)
  All-insert_by_use x (y ∷ d) h a = elim (Bool-cases (leb x.1.last_used y.1.last_used)) [
    | inl le ↦ rw le (h, a)
    | inr gt ↦ rw gt (a.0, All-insert_by_use x d h a.1)
  ]

  All-unpinned : (d : Dict Entry) → All P d → All P (unpinned_by_use d)
  unfolding unpinned_by_use
  All-unpinned [] a = tt
  All-unpinned ((k, e) ∷ d) a = elim (Bool-cases (e.pins == 0)) [
    | inl idle ↦ rw idle (All-insert_by_use (k, e) (unpinned_by_use d) a.0 (All-unpinned d a.1))
    | inr busy ↦ rw busy (All-unpinned d a.1)
  ]

abbrev IsIdle : Text × Entry → Type 0
IsIdle p = p.1.pins ≡ 0

unpinned-IsIdle : (d : Dict Entry) → All IsIdle (unpinned_by_use d)
unfolding unpinned_by_use
unpinned-IsIdle [] = tt
unpinned-IsIdle ((k, e) ∷ d) = elim (Bool-cases (e.pins == 0)) [
  | inl idle ↦
      rw idle
        (All-insert_by_use IsIdle (k, e) (unpinned_by_use d) (ground arith) (unpinned-IsIdle d))
  | inr busy ↦ rw busy (unpinned-IsIdle d)
]

has_key-insert_by_use :
    (k : Text) (x : Text × Entry) (d : Dict Entry)
    → has_key k (insert_by_use x d) ≡ (if text_eq x.0 k then true else has_key k d)
unfolding has_key insert_by_use
has_key-insert_by_use k x [] = refl
has_key-insert_by_use k x (y ∷ d) = ground (arith, has_key-insert_by_use k x d)

insert_by_use-IsDict :
    (x : Text × Entry) (d : Dict Entry)
    → has_key x.0 d ≡ false
    → IsDict d
    → IsDict (insert_by_use x d)
unfolding insert_by_use has_key
insert_by_use-IsDict x [] n h = (refl, tt)
insert_by_use-IsDict x (y ∷ d) n h = ground (
  arith,
  has_key-insert_by_use y.0 x d,
  insert_by_use-IsDict x d,
  text_eq_iff x.0 y.0,
  text_eq_iff y.0 x.0,
)

has_key-unpinned :
    (k : Text) (d : Dict Entry) → has_key k d ≡ false → has_key k (unpinned_by_use d) ≡ false
unfolding has_key unpinned_by_use
has_key-unpinned k [] h = refl
has_key-unpinned k ((j, e) ∷ d) h =
    ground (arith, has_key-insert_by_use k (j, e) (unpinned_by_use d), has_key-unpinned k d)

unpinned-IsDict : (d : Dict Entry) → IsDict d → IsDict (unpinned_by_use d)
unfolding unpinned_by_use
unpinned-IsDict [] h = tt
unpinned-IsDict ((k, e) ∷ d) h = ground (
  arith,
  insert_by_use-IsDict (k, e) (unpinned_by_use d) (has_key-unpinned k d h.0)
      (unpinned-IsDict d h.1),
  unpinned-IsDict d h.1,
)

length-insert_by_use :
    (x : Text × Entry) (d : Dict Entry) → length (insert_by_use x d) ≡ length d + 1
unfolding insert_by_use
length-insert_by_use x [] = omega arith
length-insert_by_use x (y ∷ d) = ground (arith, length-insert_by_use x d)

length-unpinned : (d : Dict Entry) → length (unpinned_by_use d) ≡ count_if is_idle d
unfolding unpinned_by_use count_if is_idle
length-unpinned [] = refl
length-unpinned ((k, e) ∷ d) =
    ground (arith, length-insert_by_use (k, e) (unpinned_by_use d), length-unpinned d)

abbrev victims : ℕ → ℕ → Dict Entry → Dict Entry
victims need most d = take (length d + need - most) (unpinned_by_use d)

victims-IsIn : (need most : ℕ) (d : Dict Entry) → IsDict d → All (IsIn d) (victims need most d)
victims-IsIn need most d h =
    All-take (IsIn d) _ (unpinned_by_use d) (All-unpinned (IsIn d) d (entries-get d h))

victims-IsIdle : (need most : ℕ) (d : Dict Entry) → All IsIdle (victims need most d)
victims-IsIdle need most d = All-take IsIdle _ (unpinned_by_use d) (unpinned-IsIdle d)

victims-IsDict : (need most : ℕ) (d : Dict Entry) → IsDict d → IsDict (victims need most d)
victims-IsDict need most d h = take-IsDict _ (unpinned_by_use d) (unpinned-IsDict d h)

spared :
    (need most : ℕ) (key : Text) (e : Entry) (d : Dict Entry)
    → IsDict d
    → get key d ≡ some e
    → e.pins ≢ 0
    → has_key key (victims need most d) ≡ false
spared need most key e d h g n = elim (Option-cases (get key (victims need most d))) [
  | inl out ↦ has_key-get key (victims need most d) out
  | inr (x, among) ↦
      let same : get key d ≡ some x =
        All-get (IsIn d) key (victims need most d) x (victims-IsIn need most d h) among in
      let idle : x.pins ≡ 0 =
        All-get IsIdle key (victims need most d) x (victims-IsIdle need most d) among in
      let this : x ≡ e = cc in absurd (n (rw this at idle))
]

-- A pinned entry is never evicted.
pub get-evictions :
    (need most : ℕ) (key : Text) (e : Entry) (d : Dict Entry)
    → IsDict d
    → get key d ≡ some e
    → e.pins ≢ 0
    → get key (remove_all (select_conn_evictions need most d) d) ≡ some e
unfolding select_conn_evictions remove_all
get-evictions need most key e d h g n = elim (Bool-cases (most == 0)) [
  | inl off ↦ rw off g
  | inr on ↦
      rw on (get-remove_all key e (victims need most d) d h (spared need most key e d h g n) g)
]

count_if_idle : (d : Dict Entry) → count_if is_idle d + count_if is_pinned d ≡ length d
unfolding count_if is_idle is_pinned
count_if_idle [] = refl
count_if_idle (p ∷ d) = ground (arith, count_if_idle d)

-- The evictions make room for the new entry, unless too few entries are unpinned.
pub length-evictions :
    (need most : ℕ) (d : Dict Entry)
    → IsDict d
    → 0 < most
    → length (remove_all (select_conn_evictions need most d) d) + need
      ≤ max most (count_if is_pinned d + need)
unfolding select_conn_evictions
length-evictions need most d h on = ground (
  arith,
  length-remove_all (victims need most d) d h (victims-IsDict need most d h)
      (victims-IsIn need most d h),
  length-take (length d + need - most) (unpinned_by_use d),
  length-unpinned d,
  count_if_idle d,
)
