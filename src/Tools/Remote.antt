-- ===== src/Tools/Remote.antt =====
-- The wrappers of the SSH tools (src/relay_shell/server.py).
use relay_shell.Prelude.{ℕ, Bool, [], ◌∷◌, Option, Text, codes, Dict, ℤ, pos, show_nat}
use relay_shell.Inventory.{HostSpec}
use relay_shell.SshPool.Connect.{Settings, Kwargs, connect_kwargs, effective_known_hosts}
use relay_shell.Probe.{Addresses}
use relay_shell.Probe.Builders.{
  policy_text_ssh_exec, policy_text_ssh_spawn, policy_text_ssh_upload, policy_text_ssh_download,
  policy_text_ssh_forward,
}
use relay_shell.Runner
use relay_shell.Runner.{exec_timeout}
use relay_shell.Tools.{
  run_remote, open_process, sftp_put, sftp_get, add_forward, list_forwards, drop_forward, Request,
  request_with, show_bool, or_default, size_text, transfer_timeout,
}

-- The arguments of a tool that say how to connect.
pub record Target : Type 0 where
  pub host : Text
  pub user : Text
  pub port : ℕ
  pub key_path : Text
  pub known_hosts : Text
  pub jump : Text

-- `Relay.connect_kwargs` on them.
abbrev pub kwargs_of : Target → Kwargs
unfolding connect_kwargs
kwargs_of t = connect_kwargs t.user t.port t.key_path t.known_hosts t.jump

module _ (A : Addresses) (hosts : Dict HostSpec) (ssh : Settings) (s : Runner.Settings) where
  -- `Relay.ssh_target_audit`
  unfoldable pub ssh_target_audit : Target → Dict Text
  unfolding effective_known_hosts show_nat
  ssh_target_audit t =
      (codes "user", t.user)
      ∷ (codes "port", show_nat t.port)
      ∷ (codes "key_path", t.key_path)
      ∷ (codes "jump", t.jump)
      ∷ (codes "known_hosts", effective_known_hosts hosts ssh t.host t.known_hosts)
      ∷ []

  unfoldable pub ssh_exec : Target → Text → ℤ → Option Request
  unfolding request_with ssh_target_audit exec_timeout policy_text_ssh_exec
  ssh_exec t command timeout =
      request_with (codes "ssh_exec")
        ((codes "host", t.host)
          ∷ (codes "command", command)
          ∷ (codes "timeout", show_nat (exec_timeout s timeout))
          ∷ ssh_target_audit t)
        (pos 65536) (run_remote t.host command (exec_timeout s timeout) (kwargs_of t))
        (policy_text_ssh_exec A t.host command t.jump)

  unfoldable pub ssh_spawn : Target → Text → ℤ → ℤ → Option Request
  unfolding request_with ssh_target_audit or_default size_text policy_text_ssh_spawn
  ssh_spawn t command cols rows =
      request_with (codes "ssh_spawn")
        ((codes "host", t.host)
          ∷ (codes "command", or_default command (codes "shell"))
          ∷ (codes "size", size_text cols rows)
          ∷ ssh_target_audit t)
        (pos 4096) (open_process t.host command cols rows (kwargs_of t))
        (policy_text_ssh_spawn A t.host command t.jump)

  unfoldable pub ssh_upload : Target → Text → Text → Bool → ℤ → Option Request
  unfolding request_with ssh_target_audit show_bool transfer_timeout policy_text_ssh_upload
  ssh_upload t local_path remote_path recursive timeout =
      request_with (codes "ssh_upload")
        ((codes "host", t.host)
          ∷ (codes "local", local_path)
          ∷ (codes "remote", remote_path)
          ∷ (codes "recursive", show_bool recursive)
          ∷ (codes "timeout", show_nat (transfer_timeout s timeout))
          ∷ ssh_target_audit t)
        (pos 2048)
        (sftp_put t.host local_path remote_path recursive (transfer_timeout s timeout)
          (kwargs_of t))
        (policy_text_ssh_upload A t.host local_path remote_path t.jump)

  unfoldable pub ssh_download : Target → Text → Text → Bool → ℤ → Option Request
  unfolding request_with ssh_target_audit show_bool transfer_timeout policy_text_ssh_download
  ssh_download t remote_path local_path recursive timeout =
      request_with (codes "ssh_download")
        ((codes "host", t.host)
          ∷ (codes "remote", remote_path)
          ∷ (codes "local", local_path)
          ∷ (codes "recursive", show_bool recursive)
          ∷ (codes "timeout", show_nat (transfer_timeout s timeout))
          ∷ ssh_target_audit t)
        (pos 2048)
        (sftp_get t.host remote_path local_path recursive (transfer_timeout s timeout)
          (kwargs_of t))
        (policy_text_ssh_download A t.host remote_path local_path t.jump)

  unfoldable pub ssh_forward : Target → Text → Option Request
  unfolding request_with ssh_target_audit policy_text_ssh_forward
  ssh_forward t spec =
      request_with (codes "ssh_forward")
        ((codes "host", t.host) ∷ (codes "spec", spec) ∷ ssh_target_audit t) (pos 1024)
        (add_forward t.host spec (kwargs_of t)) (policy_text_ssh_forward A spec t.host t.jump)

unfoldable pub ssh_forward_list : Request
ssh_forward_list = record {
  tool = codes "ssh_forward_list";
  audit_args = [];
  policy_text = [];
  max_output = pos 8192;
  work = list_forwards;
}

unfoldable pub ssh_forward_close : Text → Request
ssh_forward_close forward_id = record {
  tool = codes "ssh_forward_close";
  audit_args = (codes "forward_id", forward_id) ∷ [];
  policy_text = [];
  max_output = pos 512;
  work = drop_forward forward_id;
}
