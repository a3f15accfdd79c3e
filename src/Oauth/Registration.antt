-- ===== src/Oauth/Registration.antt =====
-- Registration and the operator's approval (src/relay_shell/auth/oauth.py and admin.py).
use relay_shell.Prelude.{
  ℕ, ◌≡◌, ◌≢◌, refl, Bool, true, false, not, ◌&&◌, List, [], ◌∷◌, Option, none, some, Text, Dict,
  get, has_key, put, get-put, has_key-put, Bool-cases, inl, inr, arith, text_eq_iff, text_eq_refl,
  text_eq_sound, ap, sym, subst, ◌∙◌, ℕ,
}
use relay_shell.Oauth.{
  Provider, Refusal, Answer, tolerant, is_true, is_approved, is_empty_dict, is_same_client,
  save_client, register_with, register_client, approve_with, approve_client, authorize,
}
use Answer.{granted}

-- The clients that can be read, at a key.
abbrev pub client_at : Text → Provider → Option Text
client_at j p = get j (tolerant p.clients)

is_same_client_get : (o : Option Text) (t : Text) → is_same_client o t ≡ true → o ≡ some t
unfolding is_same_client
is_same_client_get none t h = cc
is_same_client_get (some s) t h = ap (λ x. some x) (text_eq_sound s t h)

register_with-frozen :
    (cid incoming j : Text) (p : Provider) (first : Text × Text) (rest : Dict Text)
    → p.clients ≡ some (first ∷ rest)
    → p.single_client ≡ true
    → client_at j (register_with cid incoming p (some (first ∷ rest))).0 ≡ client_at j p
unfolding register_with is_empty_dict save_client tolerant
register_with-frozen cid incoming j p first rest have single =
    elim (Bool-cases (is_same_client (get cid (first ∷ rest)) incoming)) [
      | inr e ↦ rw (single, e) refl
      | inl e ↦
          rw (single, e, have)
            (ground (
              arith,
              get-put cid j incoming (first ∷ rest),
              text_eq_iff cid j,
              is_same_client_get (get cid (first ∷ rest)) incoming e,
            ))
    ]

-- Under the single-client setting, once one client is registered no registration, accepted or
-- refused, adds a client or changes one.
pub register_client-frozen :
    (cid incoming j : Text) (p : Provider) (first : Text × Text) (rest : Dict Text)
    → p.clients ≡ some (first ∷ rest)
    → p.single_client ≡ true
    → client_at j (register_client cid incoming p).0 ≡ client_at j p
register_client-frozen [] incoming j p first rest have single = unfold register_client in refl
register_client-frozen (c ∷ cid) incoming j p first rest have single =
    let same = register_with-frozen (c ∷ cid) incoming j p first rest have single in
    unfold register_client in
    subst (λ o. client_at j (register_with (c ∷ cid) incoming p o).0 ≡ client_at j p) (sym have)
      same

saved_unapproved :
    (cid incoming : Text) (clients : Dict Text) (p : Provider)
    → p.require_approval ≡ true
    → has_key cid clients ≡ false
    → is_approved (save_client cid incoming clients p) cid ≡ false
unfolding is_approved save_client tolerant is_true
saved_unapproved cid incoming clients p gate new =
    rw (gate, new, get-put cid cid false (tolerant p.approvals), text_eq_refl cid) refl

accepted_saved :
    (cid incoming : Text) (clients : Dict Text) (p : Provider)
    → (register_with cid incoming p (some clients)).1 ≡ none
    → (register_with cid incoming p (some clients)).0 ≡ save_client cid incoming clients p
unfolding register_with
accepted_saved cid incoming clients p h =
    elim (Bool-cases (
      p.single_client
      && (not (is_empty_dict clients) && not (is_same_client (get cid clients) incoming)))) [
        | inl e ↦ absurd (let bad : some Refusal.registration_closed ≡ none = (rw e at h) in cc)
        | inr e ↦ rw e refl
      ]

approve-saved :
    (cid incoming : Text) (clients : Dict Text) (p : Provider)
    → has_key cid clients ≡ false
    → (s : Provider) × ((approve_client cid (save_client cid incoming clients p) ≡ some (s, true))
        × (is_approved s cid ≡ true))
unfolding approve_client approve_with save_client is_approved is_true tolerant
approve-saved cid incoming clients p new =
    let stored = put cid (not p.require_approval) (tolerant p.approvals) in
    (
      record (save_client cid incoming clients p) { approvals = some (put cid true stored) },
      (
        rw (new, has_key-put cid cid incoming clients, text_eq_refl cid) refl,
        rw (get-put cid cid true stored, text_eq_refl cid) (ground arith),
      ),
    )

register_client-saved :
    (c : ℕ) (cid incoming : Text) (clients : Dict Text) (p : Provider)
    → p.clients ≡ some clients
    → (register_client (c ∷ cid) incoming p).1 ≡ none
    → (register_client (c ∷ cid) incoming p).0 ≡ save_client (c ∷ cid) incoming clients p
unfolding register_client
register_client-saved c cid incoming clients p have h =
    let accepted : (register_with (c ∷ cid) incoming p (some clients)).1 ≡ none =
      subst (λ o. (register_with (c ∷ cid) incoming p o).1 ≡ none) have h in
    subst (λ o. (register_with (c ∷ cid) incoming p o).0 ≡ save_client (c ∷ cid) incoming clients p)
      (sym have) (accepted_saved (c ∷ cid) incoming clients p accepted)

module _ (sha256_hex : Text → Text) (normalize_resource : Text → Option Text) where
  authorize-approved :
      (now : ℕ) (code client : Text) (asked : Option Text) (scopes : List Text)
      (challenge uri : Text) (explicit : Bool) (p : Provider) (out : Text)
      → (authorize sha256_hex normalize_resource now code client asked scopes challenge uri explicit
          p).1
        ≡ granted out
      → is_approved p client ≡ true
  unfolding authorize
  authorize-approved now code client asked scopes challenge uri explicit p out h = ground (arith, h)

  -- Where the approval gate is on, a newly registered client gets no authorization code, whatever
  -- it asks for, until the operator approves it; the operator's command then finds and approves it.
  pub authorize-pending :
      (first : ℕ) (rest incoming : Text) (clients : Dict Text) (p : Provider)
      → p.clients ≡ some clients
      → p.require_approval ≡ true
      → has_key (first ∷ rest) clients ≡ false
      → (register_client (first ∷ rest) incoming p).1 ≡ none
      → let q = (register_client (first ∷ rest) incoming p).0 in
        ((now : ℕ) (code : Text) (asked : Option Text) (scopes : List Text) (challenge uri : Text)
            (explicit : Bool) (out : Text)
          → (authorize sha256_hex normalize_resource now code
              (first ∷ rest)
              asked
              scopes
              challenge
              uri
              explicit
              q).1
            ≢ granted out)
        × ((s : Provider) × ((approve_client (first ∷ rest) q ≡ some (s, true))
              × (is_approved s (first ∷ rest) ≡ true)))
  authorize-pending first rest incoming clients p have gate new accepted =
      rw (register_client-saved first rest incoming clients p have accepted) (
        λ now code asked scopes challenge uri explicit out h.
            let bad : true ≡ false =
              sym (
                authorize-approved now code (first ∷ rest) asked scopes challenge uri explicit _ out
                  h)
              ∙ saved_unapproved (first ∷ rest) incoming clients p gate new in
            cc,
        approve-saved (first ∷ rest) incoming clients p new,
      )
