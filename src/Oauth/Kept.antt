-- ===== src/Oauth/Kept.antt =====
-- The marker that a rotation leaves (src/relay_shell/auth/oauth.py).
use relay_shell.Prelude.{
  ℕ, zero, suc, ◌≤◌, ◌<◌, ◌≡◌, refl, Bool, List, [], ◌∷◌, some, Text, Dict, IsDict, get, put,
  remove, take, drop, max, leb, length, keep_if, count_if, All, All-keep_if, All-take, entries-get,
  get-put, put-IsDict, remove-IsDict, text_eq, text_eq_iff, arith, Bool-cases, inl, inr,
}
use relay_shell.Oauth.Grants.{Grant, purge_grants}
use relay_shell.Oauth.Refresh.{
  is_marker, insert_marker, sort_markers, markers, extend_all, drop_all, trim_markers, spent_time,
}
use relay_shell.Oauth.Markers.{has_key-purge_grants}

-- The key holds a marker of this client and time that has not run out then.
abbrev pub Marked : Text → Text → ℕ → Dict Grant → Type 0
Marked key client now d =
    (m : Grant) × (get key d ≡ some m)
    × (m.client_id ≡ client)
    × (m.spent_at ≡ some now)
    × (now ≤ m.expires_at)

-- Every entry of the list is what the dict has under its key.
abbrev AreOf : Dict Grant → Dict Grant → Type 0
AreOf d ms = All (λ p. get p.0 d ≡ some p.1) ms

module _ (P : Text × Grant → Type 0) where
  All-insert_marker :
      (m : Text × Grant) (ms : Dict Grant) → P m → All P ms → All P (insert_marker m ms)
  unfolding insert_marker
  All-insert_marker m [] p a = (p, tt)
  All-insert_marker m (n ∷ ms) p a =
      elim (Bool-cases (leb (spent_time n.1.spent_at) (spent_time m.1.spent_at))) [
        | inl e ↦ rw e (p, a)
        | inr e ↦ rw e (a.0, All-insert_marker m ms p a.1)
      ]

  All-sort_markers : (ms : Dict Grant) → All P ms → All P (sort_markers ms)
  unfolding sort_markers
  All-sort_markers [] a = tt
  All-sort_markers (m ∷ ms) a = All-insert_marker m (sort_markers ms) a.0 (All-sort_markers ms a.1)

length-insert_marker :
    (m : Text × Grant) (ms : Dict Grant) → length (insert_marker m ms) ≡ suc (length ms)
unfolding insert_marker
length-insert_marker m [] = refl
length-insert_marker m (n ∷ ms) = ground (arith, length-insert_marker m ms)

length-sort_markers : (ms : Dict Grant) → length (sort_markers ms) ≡ length ms
unfolding sort_markers
length-sort_markers [] = refl
length-sort_markers (m ∷ ms) =
    omega (arith, length-insert_marker m (sort_markers ms), length-sort_markers ms)

module _ (p : Text × Grant → Bool) where
  length-keep_if : (d : Dict Grant) → length (keep_if p d) ≡ count_if p d
  unfolding keep_if count_if
  length-keep_if [] = refl
  length-keep_if (x ∷ d) = ground (arith, length-keep_if d)

  count_if-put :
      (k : Text) (g : Grant) (d : Dict Grant) → count_if p (put k g d) ≤ suc (count_if p d)
  unfolding count_if put
  count_if-put k g [] = ground arith
  count_if-put k g ((j, h) ∷ d) = ground (arith, count_if-put k g d)

  pub count_if-remove : (k : Text) (d : Dict Grant) → count_if p (remove k d) ≤ count_if p d
  unfolding count_if remove
  count_if-remove k [] = omega arith
  count_if-remove k ((j, h) ∷ d) = ground (arith, count_if-remove k d)

drop_short {ℓ} : {A : Type ℓ} (n : ℕ) (xs : List A) → length xs ≤ n → drop n xs ≡ []
drop_short zero [] h = refl
drop_short zero (x ∷ xs) h = absurd (omega (arith, h))
drop_short (suc n) [] h = refl
drop_short (suc n) (x ∷ xs) h = drop_short n xs (omega (arith, h))

extend_all-Marked :
    (key client : Text) (now until : ℕ) (d ms x : Dict Grant)
    → Marked key client now d
    → AreOf d ms
    → Marked key client now x
    → Marked key client now (extend_all until ms x)
unfolding extend_all
extend_all-Marked key client now until d [] x marked of here = here
extend_all-Marked key client now until d ((k, g) ∷ ms) x marked of here =
    let (m, at, own, spent, live) = marked in
    let (n, now_at, n_own, n_spent, n_live) = here in
    let longer : Grant = record g { expires_at = max g.expires_at until } in
    extend_all-Marked key client now until d ms (put k longer x) marked of.1
      (elim (Bool-cases (text_eq k key)) [
        | inl same ↦ (
          longer,
          rw (get-put k key longer x, same) refl,
          ground (arith, text_eq_iff k key, of.0),
          ground (arith, text_eq_iff k key, of.0),
          ground (arith, text_eq_iff k key, of.0),
        )
        | inr other ↦ (n, rw (get-put k key longer x, other) now_at, n_own, n_spent, n_live)
      ])

-- With fewer than 64 markers of the client before, the new one is not trimmed.
pub trim_markers-Marked :
    (key client : Text) (now until : ℕ) (m : Grant) (rest : Dict Grant)
    → IsDict rest
    → m.client_id ≡ client
    → m.spent_at ≡ some now
    → now ≤ m.expires_at
    → count_if (is_marker client) rest < 64
    → Marked key client now (trim_markers client until (put key m rest))
unfolding trim_markers markers drop_all
trim_markers-Marked key client now until m rest keys own spent live few =
    let d = put key m rest in
    let ms = sort_markers (keep_if (is_marker client) d) in
    let here : Marked key client now d =
      (m, rw (get-put key key m rest) (ground (arith, text_eq_iff key key)), own, spent, live) in
    let of : AreOf d ms =
      All-sort_markers (λ p. get p.0 d ≡ some p.1) (keep_if (is_marker client) d)
        (All-keep_if (λ p. get p.0 d ≡ some p.1) (is_marker client) d
          (entries-get d (put-IsDict key m rest keys))) in
    let short : length ms ≤ 64 = omega (
      arith,
      length-sort_markers (keep_if (is_marker client) d),
      length-keep_if (is_marker client) d,
      count_if-put (is_marker client) key m rest,
      few,
    ) in
    rw (drop_short 64 ms short) (
      extend_all-Marked key client now until d (take 64 ms) d here
        (All-take (λ p. get p.0 d ≡ some p.1) 64 ms of) here)

pub purge_grants-Marked :
    (key client : Text) (now : ℕ) (d : Dict Grant)
    → Marked key client now d
    → Marked key client now (purge_grants now d)
unfolding purge_grants get
purge_grants-Marked key client now [] (m, at, own, spent, live) = absurd cc
purge_grants-Marked key client now ((k, g) ∷ d) (m, at, own, spent, live) =
    elim (Bool-cases (text_eq k key)) [
      | inl same ↦
          let found : some g ≡ some m = rw same at at in
          let this : g ≡ m = cc in (m, rw this (ground (arith, same, live)), own, spent, live)
      | inr other ↦
          let (n, later, n_own, n_spent, n_live) =
            purge_grants-Marked key client now d (m, rw other at at, own, spent, live) in
          (n, ground (arith, other, later), n_own, n_spent, n_live)
    ]

extend_all-IsDict : (until : ℕ) (ms d : Dict Grant) → IsDict d → IsDict (extend_all until ms d)
unfolding extend_all
extend_all-IsDict until [] d keys = keys
extend_all-IsDict until ((k, g) ∷ ms) d keys = extend_all-IsDict until ms _ (put-IsDict k _ d keys)

drop_all-IsDict : (ms d : Dict Grant) → IsDict d → IsDict (drop_all ms d)
unfolding drop_all
drop_all-IsDict [] d keys = keys
drop_all-IsDict ((k, g) ∷ ms) d keys = drop_all-IsDict ms (remove k d) (remove-IsDict k d keys)

pub trim_markers-IsDict :
    (client : Text) (until : ℕ) (d : Dict Grant) → IsDict d → IsDict (trim_markers client until d)
unfolding trim_markers
trim_markers-IsDict client until d keys =
    let ms = markers client d in
    drop_all-IsDict (drop 64 ms) (extend_all until (take 64 ms) d)
      (extend_all-IsDict until (take 64 ms) d keys)

pub purge_grants-IsDict : (now : ℕ) (d : Dict Grant) → IsDict d → IsDict (purge_grants now d)
unfolding purge_grants
purge_grants-IsDict now [] keys = tt
purge_grants-IsDict now ((k, g) ∷ d) keys =
    ground (arith, has_key-purge_grants k now d, purge_grants-IsDict now d keys.1)
