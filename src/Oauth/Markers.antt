-- ===== src/Oauth/Markers.antt =====
-- The keys of the token store under trimming and purge (src/relay_shell/auth/oauth.py).
use relay_shell.Prelude.{
  ℕ, ◌≡◌, refl, false, [], ◌∷◌, Text, Dict, has_key, remove, take, drop, All, All-keep_if, arith,
  text_eq, has_key-put, has_key-remove_ne, zero, suc,
}
use relay_shell.Oauth.Grants.{Grant, purge_grants}
use relay_shell.Oauth.Refresh.{
  is_marker, insert_marker, sort_markers, markers, extend_all, drop_all, trim_markers,
}

-- No entry has the key.
abbrev Avoids : Text → Dict Grant → Type 0
Avoids j d = All (λ (p : Text × Grant). text_eq p.0 j ≡ false) d

has_key-Avoids : (j : Text) (d : Dict Grant) → has_key j d ≡ false → Avoids j d
unfolding has_key
has_key-Avoids j [] h = tt
has_key-Avoids j ((k, g) ∷ d) h = ground (arith, has_key-Avoids j d)

insert_marker-Avoids :
    (j : Text) (m : Text × Grant) (d : Dict Grant)
    → text_eq m.0 j ≡ false
    → Avoids j d
    → Avoids j (insert_marker m d)
unfolding insert_marker
insert_marker-Avoids j m [] h a = (h, tt)
insert_marker-Avoids j m (n ∷ d) h a = ground (arith, insert_marker-Avoids j m d h a.1)

sort_markers-Avoids : (j : Text) (d : Dict Grant) → Avoids j d → Avoids j (sort_markers d)
unfolding sort_markers
sort_markers-Avoids j [] a = tt
sort_markers-Avoids j (m ∷ d) a =
    insert_marker-Avoids j m (sort_markers d) a.0 (sort_markers-Avoids j d a.1)

take-Avoids : (j : Text) (n : ℕ) (d : Dict Grant) → Avoids j d → Avoids j (take n d)
take-Avoids j zero d a = tt
take-Avoids j (suc n) [] a = tt
take-Avoids j (suc n) (m ∷ d) a = (a.0, take-Avoids j n d a.1)

has_key-extend_all :
    (j : Text) (until : ℕ) (ms d : Dict Grant)
    → Avoids j ms
    → has_key j d ≡ false
    → has_key j (extend_all until ms d) ≡ false
unfolding extend_all
has_key-extend_all j until [] d a h = h
has_key-extend_all j until ((k, g) ∷ ms) d a h =
    has_key-extend_all j until ms _ a.1 (rw (has_key-put k j _ d, a.0) h)

has_key-drop_all :
    (j : Text) (ms d : Dict Grant) → has_key j d ≡ false → has_key j (drop_all ms d) ≡ false
unfolding drop_all
has_key-drop_all j [] d h = h
has_key-drop_all j ((k, g) ∷ ms) d h =
    has_key-drop_all j ms (remove k d) (has_key-remove_ne k j d h)

pub has_key-trim_markers :
    (j client : Text) (until : ℕ) (d : Dict Grant)
    → has_key j d ≡ false
    → has_key j (trim_markers client until d) ≡ false
unfolding trim_markers markers
has_key-trim_markers j client until d h = has_key-drop_all j (drop 64 (markers client d)) _ (
    has_key-extend_all j until _ d
      (take-Avoids j 64 _
        (sort_markers-Avoids j _ (All-keep_if _ (is_marker client) d (has_key-Avoids j d h))))
      h)

pub has_key-purge_grants :
    (j : Text) (now : ℕ) (d : Dict Grant)
    → has_key j d ≡ false
    → has_key j (purge_grants now d) ≡ false
unfolding purge_grants has_key
has_key-purge_grants j now [] h = refl
has_key-purge_grants j now ((k, g) ∷ d) h = ground (arith, has_key-purge_grants j now d)
