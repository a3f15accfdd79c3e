-- ===== src/SshPool/Drain.antt =====
-- The output of a remote command (`run` of src/relay_shell/sshpool.py): two drains share a budget.
-- The parts of a stream are kept joined; `decode` is the UTF-8 decoder with replacement.
use relay_shell.Prelude.{
  ℕ, zero, suc, ◌+◌, ◌-◌, ◌≤◌, ◌<◌, ◌≡◌, ◌∙◌, min, refl, sym, ap, Bool, true, false, List, [], ◌∷◌,
  ◌++◌, Option, none, some, Text, ltb, if◌then◌else◌, length, take, drop, length-append,
  length-take, take-append-drop, append_assoc, append-nil, arith, Bool-cases, inl, inr,
}
use relay_shell.Util.{truncate}

-- What the two drains have kept of the streams, and what they have seen of them.
pub record Drain : Type 0 where
  pub out : List ℕ
  pub err : List ℕ
  pub kept : ℕ
  pub out_seen : ℕ
  pub err_seen : ℕ

unfoldable pub nothing : Drain
nothing = record { out = []; err = []; kept = 0; out_seen = 0; err_seen = 0 }

-- `max_output_bytes`, where 0 and none are no cap.
unfoldable pub output_cap : Option ℕ → Option ℕ
output_cap none = none
output_cap (some n) = if ltb 0 n then some n else none

-- The piece of a chunk that the budget has room for.
unfoldable pub piece_of : Option ℕ → ℕ → List ℕ → List ℕ
piece_of none kept chunk = chunk
piece_of (some most) kept chunk = if ltb 0 (most - kept) then take (most - kept) chunk else []

-- One round of `_drain` on the standard output, or on the standard error.
unfoldable pub drain : Option ℕ → Bool → List ℕ → Drain → Drain
unfolding piece_of
drain most true chunk d =
    let piece = piece_of most d.kept chunk in
    record d {
      out = d.out ++ piece;
      kept = d.kept + length piece;
      out_seen = d.out_seen + length chunk;
    }
drain most false chunk d =
    let piece = piece_of most d.kept chunk in
    record d {
      err = d.err ++ piece;
      kept = d.kept + length piece;
      err_seen = d.err_seen + length chunk;
    }

-- The text that `run` returns with the exit code.
unfoldable pub output_of : (List ℕ → Text) → Option ℕ → Drain → Text
output_of decode none d = decode d.out ++ decode d.err
output_of decode (some most) d =
    let out = decode d.out ++ decode d.err in
    if ltb most (d.out_seen + d.err_seen) then truncate out most else out

-- The chunks of both streams in the order they are read, the latest first.
unfoldable pub drain_all : Option ℕ → List (Bool × List ℕ) → Drain
unfolding drain nothing
drain_all most [] = nothing
drain_all most ((on_out, chunk) ∷ cs) = drain most on_out chunk (drain_all most cs)

-- All that came on one stream.
unfoldable pub received : Bool → List (Bool × List ℕ) → List ℕ
received on_out [] = []
received true ((true, chunk) ∷ cs) = received true cs ++ chunk
received true ((false, chunk) ∷ cs) = received true cs
received false ((true, chunk) ∷ cs) = received false cs
received false ((false, chunk) ∷ cs) = received false cs ++ chunk

abbrev pub IsPrefix : List ℕ → List ℕ → Type 0
IsPrefix xs ys = (rest : List ℕ) × (xs ++ rest ≡ ys)

IsPrefix-append : (xs ys zs : List ℕ) → IsPrefix xs ys → IsPrefix xs (ys ++ zs)
IsPrefix-append xs ys zs (rest, e) =
    (rest ++ zs, sym (append_assoc xs rest zs) ∙ ap (λ t. t ++ zs) e)

abbrev Share : ℕ → Drain → List ℕ → List ℕ → Type 0
Share most d outs errs =
    IsPrefix d.out outs
    × IsPrefix d.err errs
    × (d.kept ≡ length d.out + length d.err)
    × (d.kept ≡ min most (length outs + length errs))
    × (d.kept < most → (d.out ≡ outs) × (d.err ≡ errs))

piece-shares :
    (most kept : ℕ) (chunk had all : List ℕ)
    → (kept < most → had ≡ all)
    → IsPrefix had all
    → IsPrefix (had ++ piece_of (some most) kept chunk) (all ++ chunk)
unfolding piece_of
piece-shares most kept chunk had all whole prefix = elim (Bool-cases (ltb 0 (most - kept))) [
  | inl room ↦
      rw (room, whole (ground arith))
        (
          drop (most - kept) chunk,
          append_assoc all (take (most - kept) chunk) (drop (most - kept) chunk)
              ∙ ap (λ t. all ++ t) (take-append-drop (most - kept) chunk),
        )
  | inr full ↦ rw (full, append-nil had) (IsPrefix-append had all chunk prefix)
]

length-piece_of :
    (most kept : ℕ) (chunk : List ℕ)
    → length (piece_of (some most) kept chunk) ≡ min (most - kept) (length chunk)
unfolding piece_of
length-piece_of most kept chunk = ground (arith, length-take (most - kept) chunk)

take_all : (n : ℕ) (xs : List ℕ) → length xs ≤ n → take n xs ≡ xs
take_all zero [] h = refl
take_all zero (x ∷ xs) h = absurd (omega (arith, h))
take_all (suc n) [] h = refl
take_all (suc n) (x ∷ xs) h = ap (λ t. x ∷ t) (take_all n xs (omega arith))

piece_whole :
    (most kept : ℕ) (chunk : List ℕ)
    → kept + length (piece_of (some most) kept chunk) < most
    → piece_of (some most) kept chunk ≡ chunk
unfolding piece_of
piece_whole most kept chunk h =
    ground (arith, take_all (most - kept) chunk, length-take (most - kept) chunk)

Share-out :
    (most : ℕ) (chunk outs errs : List ℕ) (d : Drain)
    → Share most d outs errs
    → Share most (drain (some most) true chunk d) (outs ++ chunk) errs
unfolding drain
Share-out most chunk outs errs d (a, b, parts, total, whole) =
    let piece = piece_of (some most) d.kept chunk in
    let size = length-piece_of most d.kept chunk in
    (
      piece-shares most d.kept chunk d.out outs (λ h. (whole h).0) a,
      b,
      omega (arith, parts, length-append d.out piece),
      omega (arith, total, size, length-append outs chunk),
      λ h.
          let (out_whole, err_whole) = whole (omega (arith, h)) in
          (rw (out_whole, piece_whole most d.kept chunk h) refl, err_whole),
    )

Share-err :
    (most : ℕ) (chunk outs errs : List ℕ) (d : Drain)
    → Share most d outs errs
    → Share most (drain (some most) false chunk d) outs (errs ++ chunk)
unfolding drain
Share-err most chunk outs errs d (a, b, parts, total, whole) =
    let piece = piece_of (some most) d.kept chunk in
    let size = length-piece_of most d.kept chunk in
    (
      a,
      piece-shares most d.kept chunk d.err errs (λ h. (whole h).1) b,
      omega (arith, parts, length-append d.err piece),
      omega (arith, total, size, length-append errs chunk),
      λ h.
          let (out_whole, err_whole) = whole (omega (arith, h)) in
          (out_whole, rw (err_whole, piece_whole most d.kept chunk h) refl),
    )

shares :
    (most : ℕ) (cs : List (Bool × List ℕ))
    → Share most (drain_all (some most) cs) (received true cs) (received false cs)
unfolding drain_all received nothing
shares most [] = (([], refl), ([], refl), refl, omega arith, λ h. (refl, refl))
shares most ((true, chunk) ∷ cs) =
    Share-out most chunk (received true cs) (received false cs) (drain_all (some most) cs)
      (shares most cs)
shares most ((false, chunk) ∷ cs) =
    Share-err most chunk (received true cs) (received false cs) (drain_all (some most) cs)
      (shares most cs)

-- However the chunks of the two streams interleave, what is kept of each is a prefix of what came on
-- it, the two together are as long as the cap or as all that came, whichever is less, and nothing is
-- lost below the cap.
pub drain_all-shares :
    (most : ℕ) (cs : List (Bool × List ℕ))
    → let d = drain_all (some most) cs in
      IsPrefix d.out (received true cs)
      × IsPrefix d.err (received false cs)
      × (length d.out + length d.err
          ≡ min most (length (received true cs) + length (received false cs)))
      × (length d.out + length d.err < most
          → (d.out ≡ received true cs) × (d.err ≡ received false cs))
drain_all-shares most cs =
    let (a, b, parts, total, whole) = shares most cs in
    (a, b, omega (arith, parts, total), λ h. whole (omega (arith, h, parts)))
