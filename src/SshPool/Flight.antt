-- ===== src/SshPool/Flight.antt =====
-- Who dials (the single flight of `connect` in src/relay_shell/sshpool.py).
use relay_shell.Prelude.{
  ℕ, suc, ◌≡◌, ◌<◌, ◌⊎◌, ◌↔◌, ◌&&◌, ◌||◌, inl, inr, refl, true, false, List, [], ◌∷◌, ◌++◌, Option,
  none, some, Text, Dict, IsDict, get, put, values, text_eq, text_eq_iff, ◌==◌, if◌then◌else◌,
  arith, get-put, get-remove, put-IsDict, remove-IsDict, Bool-cases, get-has_key,
}
use relay_shell.SshPool.Cache.{is_in, is_own, release}
use relay_shell.SshPool.Steps.{is_dialing, without}

-- A slot is taken exactly by the owner of its future, as long as the future is not cancelled.
pub record Flight (pending : Dict ℕ) (cancelled : List ℕ) (next : ℕ) (dialing : List (Text × ℕ))
    : Type 0 where
  pub keys : IsDict pending
  pub slots : (k : Text) (f : ℕ) → get k pending ≡ some f → is_dialing k f dialing ≡ true
  pub single :
      (k : Text) (f : ℕ)
      → is_dialing k f dialing ≡ true
      → is_in f cancelled ≡ false
      → get k pending ≡ some f
  pub fresh : (k : Text) (f : ℕ) → is_dialing k f dialing ≡ true → f < next
  pub gone : (f : ℕ) → is_in f cancelled ≡ true → f < next
  pub owner :
      (j k : Text) (f : ℕ) → is_dialing j f dialing ≡ true → is_dialing k f dialing ≡ true → j ≡ k

is_dialing-without :
    (k : Text) (f g : ℕ) (ds : List (Text × ℕ))
    → is_dialing k g (without f ds) ≡ (if g == f then false else is_dialing k g ds)
unfolding is_dialing without
is_dialing-without k f g [] = ground arith
is_dialing-without k f g ((j, h) ∷ ds) = ground (arith, is_dialing-without k f g ds)

is_dialing-cons :
    (j k : Text) (f g : ℕ) (ds : List (Text × ℕ))
    → is_dialing k g ((j, f) ∷ ds) ≡ true
    → ((j ≡ k) × (f ≡ g)) ⊎ (is_dialing k g ds ≡ true)
unfolding is_dialing
is_dialing-cons j k f g ds h = ground (arith, text_eq_iff j k)

is_dialing_here : (k : Text) (f : ℕ) (ds : List (Text × ℕ)) → is_dialing k f ((k, f) ∷ ds) ≡ true
unfolding is_dialing
is_dialing_here k f ds = ground (arith, text_eq_iff k k)

is_dialing_there :
    (j k : Text) (f g : ℕ) (ds : List (Text × ℕ))
    → is_dialing k g ds ≡ true
    → is_dialing k g ((j, f) ∷ ds) ≡ true
unfolding is_dialing
is_dialing_there j k f g ds h = ground arith

get-release :
    (j k : Text) (f : ℕ) (pending : Dict ℕ)
    → IsDict pending
    → get j (release k f pending)
      ≡ (if is_own f (get k pending) && text_eq k j then none else get j pending)
unfolding release
get-release j k f pending h = ground (arith, get-remove k j pending h)

is_own_iff : (f : ℕ) (o : Option ℕ) → (is_own f o ≡ true) ↔ (o ≡ some f)
unfolding is_own
is_own_iff f none = ground arith
is_own_iff f (some g) = ground arith

pub get-release_own :
    (k : Text) (f : ℕ) (pending : Dict ℕ)
    → IsDict pending
    → get k pending ≡ some f
    → get k (release k f pending) ≡ none
get-release_own k f pending keys slot =
    ground (arith, get-release k k f pending keys, is_own_iff f (get k pending), text_eq_iff k k)

-- Another owner gives no slot back whose future is not its own.
pub get-release_other :
    (k : Text) (f : ℕ) (key : Text) (g : ℕ) (pending : Dict ℕ) (stranded : List ℕ)
    → IsDict pending
    → get k pending ≡ some f
    → is_in f stranded ≡ true
    → is_in g stranded ≡ false
    → get k (release key g pending) ≡ some f
get-release_other k f key g pending stranded keys slot stuck live =
    ground
      (arith, get-release k key g pending keys, is_own_iff g (get key pending), text_eq_iff key k)

release-IsDict :
    (k : Text) (f : ℕ) (pending : Dict ℕ) → IsDict pending → IsDict (release k f pending)
unfolding release
release-IsDict k f pending h = ground (arith, remove-IsDict k pending h)

-- An owner that ends gives its slot back.
pub Flight-release :
    (k : Text) (f : ℕ) {pending : Dict ℕ} {cancelled : List ℕ} {next : ℕ}
    {dialing : List (Text × ℕ)}
    → is_dialing k f dialing ≡ true
    → Flight pending cancelled next dialing
    → Flight (release k f pending) cancelled next (without f dialing)
Flight-release k f {pending} {cancelled} {next} {dialing} d w = record {
  keys = release-IsDict k f pending w.keys;
  slots = λ j g e. ground (
    arith,
    get-release j k f pending w.keys,
    is_dialing-without j f g dialing,
    w.slots j g,
    w.owner j k f,
    is_own_iff f (get k pending),
    text_eq_iff k j,
  );
  single = λ j g e c. ground (
    arith,
    get-release j k f pending w.keys,
    is_dialing-without j f g dialing,
    w.single j g,
    is_own_iff f (get k pending),
    text_eq_iff k j,
  );
  fresh = λ j g e. ground (arith, is_dialing-without j f g dialing, w.fresh j g);
  gone = w.gone;
  owner = λ i j g a b.
      ground
        (arith, is_dialing-without i f g dialing, is_dialing-without j f g dialing, w.owner i j g);
}

-- A caller that finds no slot takes it with a new future.
pub Flight-claim :
    (k : Text) {pending : Dict ℕ} {cancelled : List ℕ} {next : ℕ} {dialing : List (Text × ℕ)}
    → get k pending ≡ none
    → Flight pending cancelled next dialing
    → Flight (put k next pending) cancelled (suc next) ((k, next) ∷ dialing)
Flight-claim k {pending} {cancelled} {next} {dialing} free w = record {
  keys = put-IsDict k next pending w.keys;
  slots = λ j g e. ground (
    arith,
    get-put k j next pending,
    text_eq_iff k j,
    w.slots j g,
    is_dialing_here k next dialing,
    is_dialing_there k j next g dialing,
  );
  single = λ j g e c. ground (
    arith,
    get-put k j next pending,
    text_eq_iff k j,
    is_dialing-cons k j next g dialing e,
    w.single j g,
  );
  fresh = λ j g e. ground (arith, is_dialing-cons k j next g dialing e, w.fresh j g);
  gone = λ g e. ground (arith, w.gone g e);
  owner = λ i j g a b. ground (
    arith,
    is_dialing-cons k i next g dialing a,
    is_dialing-cons k j next g dialing b,
    w.owner i j g,
    w.fresh i g,
    w.fresh j g,
  );
}

pub is_in-append : (x : ℕ) (xs ys : List ℕ) → is_in x (xs ++ ys) ≡ (is_in x xs || is_in x ys)
unfolding is_in
is_in-append x [] ys = refl
is_in-append x (y ∷ xs) ys = ground (arith, is_in-append x xs ys)

pub get-values : (k : Text) (f : ℕ) (d : Dict ℕ) → get k d ≡ some f → is_in f (values d) ≡ true
unfolding get values is_in
get-values k f [] h = cc
get-values k f ((j, g) ∷ d) h = ground (arith, get-values k f d)

values-get :
    (f : ℕ) (d : Dict ℕ) → IsDict d → is_in f (values d) ≡ true → (k : Text) × (get k d ≡ some f)
unfolding get values is_in
values-get f [] u h = cc
values-get f ((j, g) ∷ d) u h = elim (Bool-cases (g == f)) [
  | inl same ↦ (j, ground (arith, text_eq_iff j j))
  | inr other ↦
      let (k, e) = values-get f d u.1 (ground arith) in
      (k, ground (arith, text_eq_iff j k, get-has_key k d f e))
]

-- `close_all` takes every slot and cancels its future.
pub Flight-close :
    {pending : Dict ℕ} {cancelled : List ℕ} {next : ℕ} {dialing : List (Text × ℕ)}
    → Flight pending cancelled next dialing
    → Flight [] (cancelled ++ values pending) next dialing
unfolding get
Flight-close {pending} {cancelled} {next} {dialing} w = record {
  keys = tt;
  slots = λ k f e. cc;
  single = λ k f e c.
      ground
        (arith, is_in-append f cancelled (values pending), w.single k f e, get-values k f pending);
  fresh = w.fresh;
  gone = λ f e. elim (Bool-cases (is_in f cancelled)) [
    | inl old ↦ w.gone f old
    | inr new ↦
        let (k, h) =
          values-get f pending w.keys (ground (arith, is_in-append f cancelled (values pending))) in
        w.fresh k f (w.slots k f h)
  ];
  owner = w.owner;
}
