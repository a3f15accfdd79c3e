-- ===== src/SshPool/Pins.antt =====
-- What the operations on the connection cache keep: its keys, the entries of a connection, and the
-- counts of pins (src/relay_shell/sshpool.py).
use relay_shell.Prelude.{
  ℕ, ◌+◌, ◌≤◌, ◌≡◌, ◌≢◌, refl, Bool, false, List, [], ◌∷◌, Option, none, some, Text, Dict, IsDict,
  get, has_key, put, remove, ◌==◌, if◌then◌else◌, arith, All, Bool-cases, inl, inr, remove_all,
}
use relay_shell.SshPool.Cache.{Entry, Handle, kept, on_first}

-- How many entries have the connection, and how many tokens of it a list holds.
unfoldable pub conn_uses : ℕ → Dict Entry → ℕ
conn_uses c [] = 0
conn_uses c ((k, e) ∷ d) = (if e.conn == c then 1 else 0) + conn_uses c d

unfoldable pub uses : ℕ → List ℕ → ℕ
uses c [] = 0
uses c (x ∷ xs) = (if x == c then 1 else 0) + uses c xs

unfoldable pub entry_use : ℕ → Option ℕ → ℕ
entry_use c none = 0
entry_use c (some x) = if x == c then 1 else 0

unfoldable pub forward_uses : ℕ → Dict Handle → ℕ
unfolding entry_use
forward_uses c [] = 0
forward_uses c ((k, h) ∷ d) = entry_use c h.entry + forward_uses c d

-- Each entry has as many pins as the function says of its connection.
abbrev pub Pinned : (ℕ → ℕ) → Text × Entry → Type 0
Pinned count p = p.1.pins ≡ count p.1.conn

module _ (doomed : Entry → Bool) where
  has_key-kept :
      (j : Text) (d : Dict Entry) → has_key j d ≡ false → has_key j (kept doomed d) ≡ false
  unfolding has_key kept
  has_key-kept j [] h = refl
  has_key-kept j ((k, e) ∷ d) h = ground (arith, has_key-kept j d)

  pub kept-IsDict : (d : Dict Entry) → IsDict d → IsDict (kept doomed d)
  unfolding kept
  kept-IsDict [] h = tt
  kept-IsDict ((k, e) ∷ d) h = ground (arith, has_key-kept k d, kept-IsDict d h.1)

  pub conn_uses-kept : (c : ℕ) (d : Dict Entry) → conn_uses c (kept doomed d) ≤ conn_uses c d
  unfolding conn_uses kept
  conn_uses-kept c [] = omega arith
  conn_uses-kept c ((k, e) ∷ d) = ground (arith, conn_uses-kept c d)

  pub All-kept {κ} : (P : Text × Entry → Type κ) (d : Dict Entry) → All P d → All P (kept doomed d)
  unfolding kept
  All-kept P [] a = tt
  All-kept P ((k, e) ∷ d) a = elim (Bool-cases (doomed e)) [
    | inl gone ↦ rw gone (All-kept P d a.1)
    | inr stays ↦ rw stays (a.0, All-kept P d a.1)
  ]

conn_uses-remove : (c : ℕ) (k : Text) (d : Dict Entry) → conn_uses c (remove k d) ≤ conn_uses c d
unfolding conn_uses remove
conn_uses-remove c k [] = omega arith
conn_uses-remove c k ((j, e) ∷ d) = ground (arith, conn_uses-remove c k d)

pub conn_uses-remove_all :
    (c : ℕ) (vs d : Dict Entry) → conn_uses c (remove_all vs d) ≤ conn_uses c d
unfolding remove_all
conn_uses-remove_all c [] d = omega arith
conn_uses-remove_all c ((k, e) ∷ vs) d =
    omega (arith, conn_uses-remove_all c vs (remove k d), conn_uses-remove c k d)

pub conn_uses-put :
    (c : ℕ) (k : Text) (e : Entry) (d : Dict Entry)
    → conn_uses c (put k e d) ≤ (if e.conn == c then 1 else 0) + conn_uses c d
unfolding conn_uses put
conn_uses-put c k e [] = ground arith
conn_uses-put c k e ((j, x) ∷ d) = ground (arith, conn_uses-put c k e d)

-- An entry that is written back with its connection changes no count.
pub conn_uses-put_same :
    (c : ℕ) (k : Text) (e x : Entry) (d : Dict Entry)
    → get k d ≡ some x
    → e.conn ≡ x.conn
    → conn_uses c (put k e d) ≡ conn_uses c d
unfolding conn_uses put get
conn_uses-put_same c k e x [] h s = cc
conn_uses-put_same c k e x ((j, y) ∷ d) h s = ground (arith, conn_uses-put_same c k e x d)

module _ (f : Entry → Entry) (c : ℕ) where
  pub has_key-on_first : (j : Text) (d : Dict Entry) → has_key j (on_first f c d) ≡ has_key j d
  unfolding has_key on_first
  has_key-on_first j [] = refl
  has_key-on_first j ((k, e) ∷ d) = ground (arith, has_key-on_first j d)

  pub on_first-IsDict : (d : Dict Entry) → IsDict d → IsDict (on_first f c d)
  unfolding on_first
  on_first-IsDict [] h = tt
  on_first-IsDict ((k, e) ∷ d) h = ground (arith, has_key-on_first k d, on_first-IsDict d h.1)

  pub conn_uses-on_first :
      ((e : Entry) → (f e).conn ≡ e.conn)
      → (x : ℕ) (d : Dict Entry) → conn_uses x (on_first f c d) ≡ conn_uses x d
  unfolding conn_uses on_first
  conn_uses-on_first same x [] = refl
  conn_uses-on_first same x ((k, e) ∷ d) = ground (arith, conn_uses-on_first same x d, same e)

  module _ (count other : ℕ → ℕ) (elsewhere : (x : ℕ) → x ≢ c → other x ≡ count x) where
    All-elsewhere :
        (d : Dict Entry) → conn_uses c d ≡ 0 → All (Pinned count) d → All (Pinned other) d
    unfolding conn_uses
    All-elsewhere [] z a = tt
    All-elsewhere ((k, e) ∷ d) z a =
        (ground (arith, elsewhere e.conn, a.0), All-elsewhere d (ground arith) a.1)

    pub All-on_first :
        ((e : Entry) → e.conn ≡ c → e.pins ≡ count c → (f e).pins ≡ other c)
        → ((e : Entry) → (f e).conn ≡ e.conn)
        → (d : Dict Entry) → conn_uses c d ≤ 1
        → All (Pinned count) d
        → All (Pinned other) (on_first f c d)
    unfolding conn_uses on_first
    All-on_first here same [] z a = tt
    All-on_first here same ((k, e) ∷ d) z a = elim (Bool-cases (e.conn == c)) [
      | inl this ↦ rw this (ground (arith, here e, same e, a.0), All-elsewhere d (ground arith) a.1)
      | inr that ↦
          rw that
            (ground (arith, elsewhere e.conn, a.0), All-on_first here same d (ground arith) a.1)
    ]
