-- ===== src/Probe/Builders.antt =====
-- The builders of the policy texts, one for each tool (src/relay_shell/server.py).
pub mod Sees
use relay_shell.Prelude.{
  ℕ, suc, Bool, true, false, ◌&&◌, ◌||◌, List, [], ◌∷◌, ◌++◌, Option, some, Text, codes, ◌==◌,
  if◌then◌else◌, leb, length, strip, text_eq, split_on, words, partition, rpartition, get_elem?,
}
use relay_shell.SshPool.Spec.{upper}
use relay_shell.Probe.{Addresses, join_with, with_canonical_ips}

-- `"\n".join` of the parts that are not empty.
unfoldable pub nonempty : List Text → List Text
nonempty [] = []
nonempty ([] ∷ ts) = nonempty ts
nonempty ((c ∷ s) ∷ ts) = (c ∷ s) ∷ nonempty ts

-- `_policy_text_shell_exec`, `_policy_text_shell_script` and `_policy_text_shell_spawn`
unfoldable pub policy_text_shell_exec : Text → Text → Text → Text
unfolding nonempty join_with
policy_text_shell_exec command stdin env_json =
    join_with 10 (nonempty (command ∷ stdin ∷ env_json ∷ []))

unfoldable pub policy_text_shell_script : Text → Text → Text
unfolding nonempty join_with
policy_text_shell_script script env_json = join_with 10 (nonempty (script ∷ env_json ∷ []))

unfoldable pub policy_text_shell_spawn : Text → Text → Text
unfolding nonempty join_with
policy_text_shell_spawn command env_json = join_with 10 (nonempty (command ∷ env_json ∷ []))

-- `s.replace(",", " ")`
unfoldable pub commas_out : Text → Text
commas_out [] = []
commas_out (c ∷ s) = (if c == 44 then 32 else c) ∷ commas_out s

unfoldable pub colons : Text → ℕ
colons [] = 0
colons (c ∷ s) = let rest = colons s in if c == 58 then suc rest else rest

unfoldable pub bare_host : Text → Text
unfolding colons partition
bare_host hop = if colons hop == 1 then (partition 58 hop).0 else hop

unfoldable pub bare_hosts : List Text → List Text
unfolding bare_host rpartition
bare_hosts [] = []
bare_hosts (hop ∷ hops) = bare_host (rpartition 64 hop).2 ∷ bare_hosts hops

-- `_jump_hosts`
unfoldable pub jump_hosts : Text → List Text
unfolding bare_hosts words commas_out
jump_hosts jump = bare_hosts (words (commas_out jump))

-- `_with_jump`
unfoldable pub with_jump : Text → Text → Text × List Text
unfolding jump_hosts
with_jump text [] = (text, [])
with_jump text (c ∷ s) = (text ++ 10 ∷ c ∷ s, jump_hosts (c ∷ s))

-- `_forward_dhost`
unfoldable pub third_of : List Text → Text
third_of (a ∷ b ∷ c ∷ d ∷ rest) = c
third_of parts = []

unfoldable pub names_peer : List Text → Bool
unfolding upper strip text_eq
names_peer [] = false
names_peer (kind ∷ rest) =
    text_eq (upper (strip kind)) (codes "L") || text_eq (upper (strip kind)) (codes "R")

unfoldable pub forward_dhost : Text → Text
unfolding third_of names_peer split_on
forward_dhost spec =
    let parts = split_on 58 spec in
    if leb 4 (length parts) && names_peer parts then third_of parts else []

unfoldable pub if_given : Text → List Text
if_given [] = []
if_given (c ∷ s) = (c ∷ s) ∷ []

unfoldable pub line_if_given : Text → Text
line_if_given [] = []
line_if_given (c ∷ s) = 10 ∷ c ∷ s

module _ (A : Addresses) where
  -- `_policy_text_ssh_exec` and `_policy_text_ssh_spawn`
  unfoldable pub policy_text_ssh_exec : Text → Text → Text → Option Text
  unfolding with_jump with_canonical_ips
  policy_text_ssh_exec host command jump =
      let (text, hops) = with_jump (command ++ 10 ∷ host) jump in
      with_canonical_ips A text (host ∷ hops)

  unfoldable pub policy_text_ssh_spawn : Text → Text → Text → Option Text
  unfolding with_jump with_canonical_ips
  policy_text_ssh_spawn host command jump =
      let (text, hops) = with_jump (command ++ 10 ∷ host) jump in
      with_canonical_ips A text (host ∷ hops)

  -- `_policy_text_ssh_fanout`
  unfoldable pub policy_text_ssh_fanout : Text → Text → Option Text
  unfolding with_canonical_ips words commas_out
  policy_text_ssh_fanout hosts command =
      with_canonical_ips A (command ++ 10 ∷ hosts) (words (commas_out hosts))

  -- `_policy_text_ssh_check`, and `_policy_text_ssh_keyscan` with `_augment_probe_with_ips`
  unfoldable pub policy_text_ssh_check : Text → Option Text
  unfolding with_canonical_ips words commas_out
  policy_text_ssh_check hosts = with_canonical_ips A hosts (words (commas_out hosts))

  unfoldable pub augment_probe_with_ips : Text → Option Text
  unfolding with_canonical_ips words commas_out
  augment_probe_with_ips hosts = with_canonical_ips A hosts (words (commas_out hosts))

  unfoldable pub policy_text_ssh_keyscan : Text → Option Text
  unfolding augment_probe_with_ips
  policy_text_ssh_keyscan hosts = augment_probe_with_ips hosts

  -- `_policy_text_ssh_upload` and `_policy_text_ssh_download`
  unfoldable pub policy_text_ssh_upload : Text → Text → Text → Text → Option Text
  unfolding with_jump with_canonical_ips
  policy_text_ssh_upload host local_path remote_path jump =
      let (text, hops) =
        with_jump (codes "upload " ++ local_path ++ 32 ∷ (host ++ 58 ∷ remote_path)) jump in
      with_canonical_ips A text (host ∷ hops)

  unfoldable pub policy_text_ssh_download : Text → Text → Text → Text → Option Text
  unfolding with_jump with_canonical_ips
  policy_text_ssh_download host remote_path local_path jump =
      let (text, hops) =
        with_jump (codes "download " ++ host ++ 58 ∷ (remote_path ++ 32 ∷ local_path)) jump in
      with_canonical_ips A text (host ∷ hops)

  -- `_policy_text_ssh_forward`
  unfoldable pub policy_text_ssh_forward : Text → Text → Text → Option Text
  unfolding with_jump with_canonical_ips forward_dhost if_given line_if_given
  policy_text_ssh_forward spec host jump =
      let (text, hops) = with_jump (codes "forward " ++ spec) jump in
      with_canonical_ips A (text ++ line_if_given host)
        (forward_dhost spec ∷ (if_given host ++ hops))

-- `_policy_text_session_send`
unfoldable pub policy_text_session_send : Text → Text → Text
policy_text_session_send data_text pending = pending ++ data_text
