-- ===== src/SshPool/Counted.antt =====
-- The pins of the cached connections are counted right (src/relay_shell/sshpool.py).
use relay_shell.Prelude.{
  ℕ, suc, ◌+◌, ◌≤◌, ◌≡◌, refl, Bool, true, false, List, [], ◌∷◌, Option, none, some, Text, Dict,
  IsDict, get, has_key, put, remove, text_eq, ◌==◌, if◌then◌else◌, arith, All, All-get, All-imp,
  All-put, put-IsDict, Bool-cases, inl, inr, remove_all, remove_all-IsDict, All-remove_all,
}
use relay_shell.SshPool.Cache.{Entry, Handle, kept, on_first, add_pin, drop_pin, is_in, conns_of}
use relay_shell.SshPool.Steps.{drop_one, drop_held, is_held, hold}
use relay_shell.SshPool.Pins.{
  conn_uses, uses, entry_use, forward_uses, Pinned, kept-IsDict, conn_uses-kept, All-kept,
  conn_uses-remove_all, conn_uses-put, conn_uses-put_same, on_first-IsDict, conn_uses-on_first,
  All-on_first,
}

-- The holders of a connection: the callers that have pinned it, and the forwards.
abbrev pub holders : List ℕ → Dict Handle → ℕ → ℕ
holders held forwards c = uses c held + forward_uses c forwards

pub record Counted (conns : Dict Entry) (forwards : Dict Handle) (held : List ℕ) (next : ℕ)
    : Type 0 where
  pub keys : IsDict conns
  pub names : IsDict forwards
  pub pins : All (Pinned (holders held forwards)) conns
  pub one : (c : ℕ) → conn_uses c conns ≤ 1
  pub fresh :
      (c : ℕ)
      → next ≤ c
      → (conn_uses c conns ≡ 0) × (uses c held ≡ 0) × (forward_uses c forwards ≡ 0)

uses-drop_one :
    (x c : ℕ) (held : List ℕ)
    → is_in c held ≡ true
    → uses x (drop_one c held) + (if c == x then 1 else 0) ≡ uses x held
unfolding uses drop_one is_in
uses-drop_one x c [] h = cc
uses-drop_one x c (y ∷ held) h = ground (arith, uses-drop_one x c held)

pub uses-drop_held :
    (x : ℕ) (entry : Option ℕ) (held : List ℕ)
    → is_held entry held ≡ true
    → uses x (drop_held entry held) + entry_use x entry ≡ uses x held
unfolding drop_held is_held entry_use
uses-drop_held x none held h = omega arith
uses-drop_held x (some c) held h = uses-drop_one x c held h

pub uses-hold :
    (x : ℕ) (entry : Option ℕ) (held : List ℕ)
    → uses x (hold entry held) ≡ entry_use x entry + uses x held
unfolding uses hold entry_use
uses-hold x none held = omega arith
uses-hold x (some c) held = refl

pub forward_uses-put :
    (x : ℕ) (fid : Text) (h : Handle) (d : Dict Handle)
    → has_key fid d ≡ false
    → forward_uses x (put fid h d) ≡ entry_use x h.entry + forward_uses x d
unfolding forward_uses put has_key
forward_uses-put x fid h [] n = refl
forward_uses-put x fid h ((j, g) ∷ d) n = ground (arith, forward_uses-put x fid h d)

pub forward_uses-remove :
    (x : ℕ) (fid : Text) (h : Handle) (d : Dict Handle)
    → get fid d ≡ some h
    → forward_uses x (remove fid d) + entry_use x h.entry ≡ forward_uses x d
unfolding forward_uses remove get
forward_uses-remove x fid h [] e = cc
forward_uses-remove x fid h ((j, g) ∷ d) e = elim (Bool-cases (text_eq j fid)) [
  | inl same ↦
      let this : some g ≡ some h = rw same at e in
      let here : g ≡ h = cc in rw (same, here) (omega arith)
  | inr other ↦ rw other (omega (arith, forward_uses-remove x fid h d (rw other at e)))
]

conns_of-conn_uses : (c : ℕ) (d : Dict Entry) → is_in c (conns_of d) ≡ true → 1 ≤ conn_uses c d
unfolding conns_of conn_uses is_in
conns_of-conn_uses c [] h = cc
conns_of-conn_uses c ((k, e) ∷ d) h = ground (arith, conns_of-conn_uses c d)

module _ {conns : Dict Entry} {forwards : Dict Handle} {held : List ℕ} {next : ℕ}
    (w : Counted conns forwards held next) where
  pub Counted-kept : (doomed : Entry → Bool) → Counted (kept doomed conns) forwards held next
  Counted-kept doomed = record {
    keys = kept-IsDict doomed conns w.keys;
    names = w.names;
    pins = All-kept doomed (Pinned (holders held forwards)) conns w.pins;
    one = λ c. omega (arith, w.one c, conn_uses-kept doomed c conns);
    fresh =
        λ c h. let (a, b, d) = w.fresh c h in (omega (arith, conn_uses-kept doomed c conns), b, d);
  }

  -- A hit of the cache refreshes its time.
  pub Counted-touch :
      (key : Text) (e : Entry) (now : ℕ)
      → get key conns ≡ some e
      → Counted (put key (record e { last_used = now }) conns) forwards held next
  Counted-touch key e now h =
      let x : Entry = record e { last_used = now } in
      let same = λ (c : ℕ). conn_uses-put_same c key x e conns h refl in
      record {
        keys = put-IsDict key x conns w.keys;
        names = w.names;
        pins =
            All-put (Pinned (holders held forwards)) key x conns
              (All-get (Pinned (holders held forwards)) key conns e w.pins h) w.pins;
        one = λ c. omega (arith, w.one c, same c);
        fresh = λ c le. let (a, b, d) = w.fresh c le in (omega (arith, same c), b, d);
      }

  -- A new connection is cached without holders.
  pub Counted-insert :
      (key : Text) (now : ℕ) (evicted : Dict Entry)
      → Counted
          (put key (record { conn = next; last_used = now; pins = 0 }) (remove_all evicted conns))
          forwards
          held
          (suc next)
  Counted-insert key now evicted =
      let x : Entry = record { conn = next; last_used = now; pins = 0 } in
      let left = remove_all evicted conns in
      let (new, idle, free) = w.fresh next (omega arith) in
      record {
        keys = put-IsDict key x left (remove_all-IsDict evicted conns w.keys);
        names = w.names;
        pins =
            All-put (Pinned (holders held forwards)) key x left (omega arith)
              (All-remove_all (Pinned (holders held forwards)) evicted conns w.pins);
        one = λ c.
            ground
              (arith, w.one c, conn_uses-put c key x left, conn_uses-remove_all c evicted conns);
        fresh = λ c le.
            let (a, b, d) = w.fresh c (omega arith) in
            (
              ground (arith, conn_uses-put c key x left, conn_uses-remove_all c evicted conns),
              b,
              d,
            );
      }

  pub Counted-pin :
      (c now : ℕ)
      → is_in c (conns_of conns) ≡ true
      → Counted (on_first (add_pin now) c conns) forwards (c ∷ held) next
  unfolding add_pin uses
  Counted-pin c now h =
      let same = λ (x : ℕ). conn_uses-on_first (add_pin now) c (λ e. refl) x conns in
      record {
        keys = on_first-IsDict (add_pin now) c conns w.keys;
        names = w.names;
        pins =
            All-on_first (add_pin now) c (holders held forwards) (holders (c ∷ held) forwards)
              (λ x ne. ground arith) (λ e this h'. ground arith) (λ e. refl) conns (w.one c) w.pins;
        one = λ x. omega (arith, w.one x, same x);
        fresh = λ x le.
            let (a, b, d) = w.fresh x le in
            (omega (arith, same x), ground (arith, conns_of-conn_uses c conns h), d);
      }

  -- A pin is given back, by a caller or with a forward that is closed.
  pub Counted-unpin :
      (c now : ℕ) (forwards' : Dict Handle) (held' : List ℕ)
      → IsDict forwards'
      → ((x : ℕ) → holders held' forwards' x + entry_use x (some c) ≡ holders held forwards x)
      → Counted (on_first (drop_pin now) c conns) forwards' held' next
  unfolding drop_pin entry_use
  Counted-unpin c now forwards' held' names less =
      let same = λ (x : ℕ). conn_uses-on_first (drop_pin now) c (λ e. refl) x conns in
      record {
        keys = on_first-IsDict (drop_pin now) c conns w.keys;
        names = names;
        pins =
            All-on_first (drop_pin now) c (holders held forwards) (holders held' forwards')
              (λ x ne. ground (arith, less x)) (λ e this h'. ground (arith, less c)) (λ e. refl)
              conns (w.one c) w.pins;
        one = λ x. omega (arith, w.one x, same x);
        fresh = λ x le.
            let (a, b, d) = w.fresh x le in
            (omega (arith, same x), omega (arith, less x), omega (arith, less x));
      }

  -- A pin that goes from a caller to a forward counts as before.
  pub Counted-move :
      (forwards' : Dict Handle) (held' : List ℕ)
      → IsDict forwards'
      → ((x : ℕ) → holders held' forwards' x ≡ holders held forwards x)
      → Counted conns forwards' held' next
  Counted-move forwards' held' names same = record {
    keys = w.keys;
    names = names;
    pins =
        All-imp (Pinned (holders held forwards)) (Pinned (holders held' forwards'))
          (λ k e h. omega (arith, same e.conn)) conns w.pins;
    one = w.one;
    fresh =
        λ x le. let (a, b, d) = w.fresh x le in (a, omega (arith, same x), omega (arith, same x));
  }

  -- `close_all` leaves nothing to count.
  pub Counted-clear : Counted [] [] held next
  unfolding conn_uses forward_uses
  Counted-clear = record {
    keys = tt;
    names = tt;
    pins = tt;
    one = λ x. omega arith;
    fresh = λ x le. (refl, (w.fresh x le).1, refl);
  }

  pub Counted-later : Counted conns forwards held (suc next)
  Counted-later = record {
    keys = w.keys;
    names = w.names;
    pins = w.pins;
    one = w.one;
    fresh = λ x le. w.fresh x (omega arith);
  }
