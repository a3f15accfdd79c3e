-- ===== src/Probe/Builders/Sees.antt =====
-- What a policy text holds of the arguments (src/relay_shell/server.py).
use relay_shell.Prelude.{
  ℕ, ◌≡◌, true, List, [], ◌∷◌, ◌++◌, Option, some, Text, codes, contains, is_among, words, text_eq,
  text_eq_refl, arith, All,
}
use relay_shell.Probe.{Addresses, join_with, with_canonical_ips}
use relay_shell.Probe.Ips.{
  with_canonical_ips-prefix, join_with-contains, contains_whole, contains_nil, contains-cons,
  contains-longer, contains-middle, contains-after, contains_self,
}
use relay_shell.Probe.Builders.{
  with_jump, nonempty, line_if_given, if_given, forward_dhost, commas_out, policy_text_shell_exec,
  policy_text_shell_script, policy_text_shell_spawn, policy_text_ssh_exec, policy_text_ssh_spawn,
  policy_text_ssh_fanout, policy_text_ssh_check, policy_text_ssh_keyscan, augment_probe_with_ips,
  policy_text_ssh_upload, policy_text_ssh_download, policy_text_ssh_forward,
}

-- A probe that is built holds the texts.
abbrev pub Sees : Option Text → List Text → Type 0
Sees probe ts = (p : Text) → probe ≡ some p → All (λ t. contains t p ≡ true) ts

contains-All :
    (text rest : Text) (ts : List Text)
    → All (λ t. contains t text ≡ true) ts
    → All (λ t. contains t (text ++ rest) ≡ true) ts
contains-All text rest [] a = tt
contains-All text rest (t ∷ ts) a = (contains-longer t text rest a.0, contains-All text rest ts a.1)

with_canonical_ips-Sees :
    (A : Addresses) (text : Text) (toks ts : List Text)
    → All (λ t. contains t text ≡ true) ts
    → Sees (with_canonical_ips A text toks) ts
with_canonical_ips-Sees A text toks ts a p e =
    let (rest, front) = with_canonical_ips-prefix A text p toks e in
    rw front (contains-All text rest ts a)

-- A jump chain stands behind the text.
with_jump-holds :
    (text jump : Text) (ts : List Text)
    → All (λ t. contains t text ≡ true) ts
    → All (λ t. contains t (with_jump text jump).0 ≡ true) (jump ∷ ts)
unfolding with_jump
with_jump-holds text [] ts a = (contains_nil text, a)
with_jump-holds text (c ∷ s) ts a = (
  contains-after (c ∷ s) text (10 ∷ c ∷ s)
      (contains-cons (c ∷ s) 10 (c ∷ s) (contains_whole (c ∷ s))),
  contains-All text (10 ∷ c ∷ s) ts a,
)

-- The second of two texts that a separator joins.
second_held :
    (a : Text) (sep : ℕ) (b t : Text) → contains b t ≡ true → contains b (a ++ sep ∷ t) ≡ true
second_held a sep b t h = contains-after b a (sep ∷ t) (contains-cons b sep t h)

nonempty-among :
    (c : ℕ) (s : Text) (ts : List Text)
    → is_among (c ∷ s) ts ≡ true
    → is_among (c ∷ s) (nonempty ts) ≡ true
unfolding is_among nonempty text_eq
nonempty-among c s [] h = h
nonempty-among c s ([] ∷ ts) h = nonempty-among c s ts h
nonempty-among c s ((d ∷ t) ∷ ts) h = ground (arith, nonempty-among c s ts)

parts_held :
    (t : Text) (ts : List Text)
    → is_among t ts ≡ true
    → contains t (join_with 10 (nonempty ts)) ≡ true
parts_held [] ts h = contains_nil (join_with 10 (nonempty ts))
parts_held (c ∷ s) ts h = join_with-contains 10 (c ∷ s) (nonempty ts) (nonempty-among c s ts h)

forward_held :
    (spec host jump : Text)
    → All
        (λ t.
          contains t ((with_jump (codes "forward " ++ spec) jump).0 ++ line_if_given host) ≡ true)
        (host ∷ jump ∷ spec ∷ [])
unfolding line_if_given
forward_held spec [] jump = (
  contains_nil _,
  contains-All _ [] (jump ∷ spec ∷ []) (
      with_jump-holds (codes "forward " ++ spec) jump (spec ∷ [])
        (contains-after spec (codes "forward ") spec (contains_whole spec), tt)),
)
forward_held spec (c ∷ s) jump =
    let text = (with_jump (codes "forward " ++ spec) jump).0 in
    (
      second_held text 10 (c ∷ s) (c ∷ s) (contains_whole (c ∷ s)),
      contains-All text (10 ∷ c ∷ s) (jump ∷ spec ∷ []) (
          with_jump-holds (codes "forward " ++ spec) jump (spec ∷ [])
            (contains-after spec (codes "forward ") spec (contains_whole spec), tt)),
    )

among_first : (t : Text) (ts : List Text) → is_among t (t ∷ ts) ≡ true
unfolding is_among
among_first t ts = ground (arith, text_eq_refl t)

among_later : (t u : Text) (ts : List Text) → is_among t ts ≡ true → is_among t (u ∷ ts) ≡ true
unfolding is_among
among_later t u ts h = ground arith

-- Every part of a local tool's text.
pair_held :
    (a b : Text) → All (λ t. contains t (join_with 10 (nonempty (a ∷ b ∷ []))) ≡ true) (a ∷ b ∷ [])
pair_held a b = (
  parts_held a (a ∷ b ∷ []) (among_first a (b ∷ [])),
  (parts_held b (a ∷ b ∷ []) (among_later b a (b ∷ []) (among_first b [])), tt),
)

triple_held :
    (a b c : Text)
    → All (λ t. contains t (join_with 10 (nonempty (a ∷ b ∷ c ∷ []))) ≡ true) (a ∷ b ∷ c ∷ [])
triple_held a b c =
    let ts = a ∷ b ∷ c ∷ [] in
    (
      parts_held a ts (among_first a (b ∷ c ∷ [])),
      (
        parts_held b ts (among_later b a (b ∷ c ∷ []) (among_first b (c ∷ []))),
        (
          parts_held c ts
              (among_later c a (b ∷ c ∷ []) (among_later c b (c ∷ []) (among_first c []))),
          tt,
        ),
      ),
    )

two_held : (a b : Text) → All (λ t. contains t (a ++ 10 ∷ b) ≡ true) (a ∷ b ∷ [])
two_held a b = (contains_self a (10 ∷ b), (second_held a 10 b b (contains_whole b), tt))

upload_held :
    (host local_path remote_path : Text)
    → All
        (λ t. contains t (codes "upload " ++ local_path ++ 32 ∷ (host ++ 58 ∷ remote_path)) ≡ true)
        (local_path ∷ host ∷ remote_path ∷ [])
upload_held host local_path remote_path =
    let target = host ++ 58 ∷ remote_path in
    let behind = λ (t : Text) (h : contains t target ≡ true).
      contains-after t (codes "upload ") (local_path ++ 32 ∷ target)
        (second_held local_path 32 t target h) in
    (
      contains-middle (codes "upload ") local_path (32 ∷ target),
      (
        behind host (contains_self host (58 ∷ remote_path)),
        (
          behind remote_path
              (second_held host 58 remote_path remote_path (contains_whole remote_path)),
          tt,
        ),
      ),
    )

download_held :
    (host remote_path local_path : Text)
    → All
        (λ t.
          contains t (codes "download " ++ host ++ 58 ∷ (remote_path ++ 32 ∷ local_path)) ≡ true)
        (host ∷ remote_path ∷ local_path ∷ [])
download_held host remote_path local_path =
    let paths = remote_path ++ 32 ∷ local_path in
    let behind = λ (t : Text) (h : contains t paths ≡ true).
      contains-after t (codes "download ") (host ++ 58 ∷ paths) (second_held host 58 t paths h) in
    (
      contains-middle (codes "download ") host (58 ∷ paths),
      (
        behind remote_path (contains_self remote_path (32 ∷ local_path)),
        (
          behind local_path
              (second_held remote_path 32 local_path local_path (contains_whole local_path)),
          tt,
        ),
      ),
    )

-- The command, input, environment, host, jump chain, paths or forward specification that a builder is
-- given stand whole in the text that it makes for the policy.
pub policy_texts-Sees :
    (A : Addresses) (command input env host hosts jump local_path remote_path spec : Text)
    → All
        (λ t. contains t (policy_text_shell_exec command input env) ≡ true)
        (command ∷ input ∷ env ∷ [])
      × All (λ t. contains t (policy_text_shell_script command env) ≡ true) (command ∷ env ∷ [])
      × All (λ t. contains t (policy_text_shell_spawn command env) ≡ true) (command ∷ env ∷ [])
      × Sees (policy_text_ssh_exec A host command jump) (jump ∷ command ∷ host ∷ [])
      × Sees (policy_text_ssh_spawn A host command jump) (jump ∷ command ∷ host ∷ [])
      × Sees (policy_text_ssh_fanout A hosts command) (command ∷ hosts ∷ [])
      × Sees (policy_text_ssh_check A hosts) (hosts ∷ [])
      × Sees (policy_text_ssh_keyscan A hosts) (hosts ∷ [])
      × Sees
          (policy_text_ssh_upload A host local_path remote_path jump)
          (jump ∷ local_path ∷ host ∷ remote_path ∷ [])
      × Sees
          (policy_text_ssh_download A host remote_path local_path jump)
          (jump ∷ host ∷ remote_path ∷ local_path ∷ [])
      × Sees (policy_text_ssh_forward A spec host jump) (host ∷ jump ∷ spec ∷ [])
unfolding policy_text_shell_exec policy_text_shell_script policy_text_shell_spawn
    policy_text_ssh_exec policy_text_ssh_spawn policy_text_ssh_fanout policy_text_ssh_check
    policy_text_ssh_keyscan augment_probe_with_ips policy_text_ssh_upload policy_text_ssh_download
    policy_text_ssh_forward
policy_texts-Sees A command input env host hosts jump local_path remote_path spec =
    let remote =
      with_jump-holds (command ++ 10 ∷ host) jump (command ∷ host ∷ []) (two_held command host) in
    let up = codes "upload " ++ local_path ++ 32 ∷ (host ++ 58 ∷ remote_path) in
    let down = codes "download " ++ host ++ 58 ∷ (remote_path ++ 32 ∷ local_path) in
    let forward = with_jump (codes "forward " ++ spec) jump in
    let far = host ∷ (with_jump (command ++ 10 ∷ host) jump).1 in
    let listed = words (commas_out hosts) in
    (
      triple_held command input env,
      pair_held command env,
      pair_held command env,
      with_canonical_ips-Sees A _ far (jump ∷ command ∷ host ∷ []) remote,
      with_canonical_ips-Sees A _ far (jump ∷ command ∷ host ∷ []) remote,
      with_canonical_ips-Sees A _ listed (command ∷ hosts ∷ []) (two_held command hosts),
      with_canonical_ips-Sees A _ listed (hosts ∷ []) (contains_whole hosts, tt),
      with_canonical_ips-Sees A _ listed (hosts ∷ []) (contains_whole hosts, tt),
      with_canonical_ips-Sees A _ (host ∷ (with_jump up jump).1)
          (jump ∷ local_path ∷ host ∷ remote_path ∷ [])
          (with_jump-holds up jump (local_path ∷ host ∷ remote_path ∷ [])
            (upload_held host local_path remote_path)),
      with_canonical_ips-Sees A _ (host ∷ (with_jump down jump).1)
          (jump ∷ host ∷ remote_path ∷ local_path ∷ [])
          (with_jump-holds down jump (host ∷ remote_path ∷ local_path ∷ [])
            (download_held host remote_path local_path)),
      with_canonical_ips-Sees A _ (forward_dhost spec ∷ (if_given host ++ forward.1))
          (host ∷ jump ∷ spec ∷ []) (forward_held spec host jump),
    )
