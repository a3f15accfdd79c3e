-- ===== src/Broker/Store.antt =====
-- The token store of broker.py and its sweep: expired entries go first, then the store is cut to
-- its bound, un-armed and soonest-expiring entries first.
use relay_shell.Prelude.{
  ℕ, ◌-◌, Bool, [], ◌∷◌, ◌||◌, ◌&&◌, Text, Dict, remove_all, length, take, ltb, leb, if◌then◌else◌,
}

-- `_Entry`
pub record Entry : Type 0 where
  pub op_hash : Text
  pub expires_at : ℕ
  pub client_id : Text
  pub armed : Bool

-- `e.expires_at <= now` is expired.
unfoldable pub drop_expired : ℕ → Dict Entry → Dict Entry
drop_expired now [] = []
drop_expired now ((k, e) ∷ d) =
    let rest = drop_expired now d in if leb e.expires_at now then rest else (k, e) ∷ rest

-- The order of `(armed, expires_at)`, `False` before `True`.
unfoldable pub key_le : Entry → Entry → Bool
key_le x y =
    if x.armed
    then y.armed && leb x.expires_at y.expires_at
    else y.armed || leb x.expires_at y.expires_at

-- `sorted` is stable: an entry stays before the equal ones that stood behind it.
unfoldable pub insert_sorted : Text × Entry → Dict Entry → Dict Entry
insert_sorted p [] = p ∷ []
insert_sorted p (q ∷ d) = if key_le p.1 q.1 then p ∷ q ∷ d else q ∷ insert_sorted p d

unfoldable pub sort_entries : Dict Entry → Dict Entry
unfolding insert_sorted key_le
sort_entries [] = []
sort_entries (p ∷ d) = insert_sorted p (sort_entries d)

unfoldable pub evict : ℕ → Dict Entry → Dict Entry
unfolding sort_entries remove_all
evict bound d =
    if ltb bound (length d) then remove_all (take (length d - bound) (sort_entries d)) d else d

unfoldable pub sweep_entries : ℕ → ℕ → Dict Entry → Dict Entry
unfolding drop_expired evict
sweep_entries now bound d = evict bound (drop_expired now d)
