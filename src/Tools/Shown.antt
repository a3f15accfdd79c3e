-- ===== src/Tools/Shown.antt =====
-- What the policy sees of what the executors get (the wrappers of src/relay_shell/server.py).
use relay_shell.Prelude.{
  ◌≡◌, refl, subst, Bool, true, List, [], ◌∷◌, ◌++◌, Text, Dict, ℤ, All, contains, if◌then◌else◌,
}
use relay_shell.Inventory.{HostSpec}
use relay_shell.Runner
use relay_shell.SshPool.Connect.{Settings, connect_kwargs}
use relay_shell.Probe.{Addresses}
use relay_shell.Probe.Ips.{contains-after, contains_whole}
use relay_shell.Probe.Builders.{policy_text_session_send}
use relay_shell.Probe.Builders.Sees.{policy_texts-Sees}
use relay_shell.Tools.{
  Work, run_command, run_script, spawn_local, run_remote, open_process, sftp_put, sftp_get,
  add_forward, send_data, Request, shell_exec, shell_script, shell_spawn, session_send,
}
use relay_shell.Tools.Remote.{Target, ssh_exec, ssh_spawn, ssh_upload, ssh_download, ssh_forward}
use relay_shell.Tools.Denied.{
  IsRemote, is_exec, is_spawn, is_upload, is_download, is_forward, request_with-text,
}

-- What decides what runs or who is spoken to: commands, inputs, environments, hosts, jump chains,
-- paths and forward specifications. The working directory, the user, the port, the key file and the
-- mode of the host-key check are not among them.
unfoldable pub shown : Work → List Text
shown (run_command command timeout cwd stdin merge use_shell env) = command ∷ stdin ∷ env ∷ []
shown (run_script script interpreter strict timeout cwd env) = script ∷ env ∷ []
shown (spawn_local command cwd env cols rows) = command ∷ env ∷ []
shown (run_remote host command timeout kw) = kw.jump ∷ command ∷ host ∷ []
shown (open_process host command cols rows kw) = kw.jump ∷ command ∷ host ∷ []
shown (sftp_put host local_path remote_path recursive timeout kw) =
    kw.jump ∷ local_path ∷ host ∷ remote_path ∷ []
shown (sftp_get host remote_path local_path recursive timeout kw) =
    kw.jump ∷ host ∷ remote_path ∷ local_path ∷ []
shown (add_forward host spec kw) = host ∷ kw.jump ∷ spec ∷ []
shown _ = []

-- The requests of the tools that run a command or dial a target.
pub data IsActive (A : Addresses) (hosts : Dict HostSpec) (ssh : Settings) (s : Runner.Settings)
    (r : Request) : Type 0 where
  is_shell_exec :
      (command : Text) (timeout max_output : ℤ) (cwd stdin : Text) (merge_stderr use_shell : Bool)
      (env_json : Text)
      → shell_exec s command timeout max_output cwd stdin merge_stderr use_shell env_json ≡ r
      → IsActive A hosts ssh s r
  is_shell_script :
      (script interpreter : Text) (strict : Bool) (timeout : ℤ) (cwd env_json : Text)
      → shell_script s script interpreter strict timeout cwd env_json ≡ r
      → IsActive A hosts ssh s r
  is_shell_spawn :
      (command : Text) (cols rows : ℤ) (cwd env_json : Text)
      → shell_spawn command cols rows cwd env_json ≡ r
      → IsActive A hosts ssh s r
  is_remote : (t : Target) → IsRemote A hosts ssh s t r → IsActive A hosts ssh s r

-- Every text of the work is in the policy text.
abbrev pub Shows : Request → Type 0
Shows r = All (λ t. contains t r.policy_text ≡ true) (shown r.work)

remote-Shows :
    (A : Addresses) (hosts : Dict HostSpec) (ssh : Settings) (s : Runner.Settings) (t : Target)
    (r : Request)
    → IsRemote A hosts ssh s t r
    → Shows r
unfolding shown ssh_exec ssh_spawn ssh_upload ssh_download ssh_forward connect_kwargs
remote-Shows A hosts ssh s t r (is_exec command timeout e) =
    let held = policy_texts-Sees A command [] [] t.host [] t.jump [] [] [] in
    let (text, work) = request_with-text _ _ _ _ _ r e in rw work (held.3 r.policy_text text)
remote-Shows A hosts ssh s t r (is_spawn command cols rows e) =
    let held = policy_texts-Sees A command [] [] t.host [] t.jump [] [] [] in
    let (text, work) = request_with-text _ _ _ _ _ r e in rw work (held.4 r.policy_text text)
remote-Shows A hosts ssh s t r (is_upload local_path remote_path recursive timeout e) =
    let held = policy_texts-Sees A [] [] [] t.host [] t.jump local_path remote_path [] in
    let (text, work) = request_with-text _ _ _ _ _ r e in rw work (held.8 r.policy_text text)
remote-Shows A hosts ssh s t r (is_download remote_path local_path recursive timeout e) =
    let held = policy_texts-Sees A [] [] [] t.host [] t.jump local_path remote_path [] in
    let (text, work) = request_with-text _ _ _ _ _ r e in rw work (held.9 r.policy_text text)
remote-Shows A hosts ssh s t r (is_forward spec e) =
    let held = policy_texts-Sees A [] [] [] t.host [] t.jump [] [] spec in
    let (text, work) = request_with-text _ _ _ _ _ r e in rw work (held.10 r.policy_text text)

active-Shows :
    (A : Addresses) (hosts : Dict HostSpec) (ssh : Settings) (s : Runner.Settings) (r : Request)
    → IsActive A hosts ssh s r
    → Shows r
unfolding shown shell_exec shell_script shell_spawn
active-Shows A hosts ssh s r (is_shell_exec command timeout bound cwd stdin merge use_shell env e) =
    let held = policy_texts-Sees A command stdin env [] [] [] [] [] [] in subst Shows e held.0
active-Shows A hosts ssh s r (is_shell_script script interpreter strict timeout cwd env e) =
    let held = policy_texts-Sees A script [] env [] [] [] [] [] [] in subst Shows e held.1
active-Shows A hosts ssh s r (is_shell_spawn command cols rows cwd env e) =
    let held = policy_texts-Sees A command [] env [] [] [] [] [] [] in subst Shows e held.2
active-Shows A hosts ssh s r (is_remote t remote) = remote-Shows A hosts ssh s t r remote

-- What the executor of a shell or SSH tool gets as a command, an input, an environment, a host, a jump
-- chain, a path or a forward specification stands whole in the text that the policy reads for the
-- call. Of what session_send writes, the policy reads the data behind the line that was typed before.
pub work-Shows :
    (A : Addresses) (hosts : Dict HostSpec) (ssh : Settings) (s : Runner.Settings) (r : Request)
    → (IsActive A hosts ssh s r → Shows r)
      × ((sha256_hex : Text → Text) (secret hashed enter : Bool)
            (session_id data_text pending : Text)
          → let q = session_send sha256_hex secret hashed session_id data_text enter pending in
            (contains data_text q.policy_text ≡ true)
            × (q.work ≡ send_data session_id (if enter then data_text ++ 10 ∷ [] else data_text)))
unfolding session_send policy_text_session_send
work-Shows A hosts ssh s r = (
  active-Shows A hosts ssh s r,
  λ sha256_hex secret hashed enter session_id data_text pending.
      (contains-after data_text pending data_text (contains_whole data_text), refl),
)
