-- ===== src/Tools.antt =====
-- The tool wrappers of src/relay_shell/server.py: the audit arguments, the policy text and the output
-- bound that each hands to `Relay.run`. Audit arguments are kept as the text of their values. A tool
-- whose policy text may raise gives an option.
pub mod Remote
pub mod Denied
pub mod Shown
pub mod Secret
mod Examples
use relay_shell.Prelude.{
  ℕ, Bool, true, false, List, [], ◌∷◌, ◌++◌, Option, none, some, Text, codes, Dict, ℤ, pos, negsuc,
  if◌then◌else◌, leb, length, show_nat, show_int,
}
use relay_shell.Policy.{Tier}
use relay_shell.Util.{clamp}
use relay_shell.Runner.{Settings, Call, Ending, exec_timeout}
use relay_shell.Inventory.{HostSpec}
use relay_shell.SshPool.Connect.{effective_known_hosts, Kwargs}
use relay_shell.Probe.{Addresses}
use relay_shell.Probe.Builders.{
  policy_text_shell_exec, policy_text_shell_script, policy_text_shell_spawn, policy_text_ssh_exec,
  policy_text_ssh_spawn, policy_text_ssh_upload, policy_text_ssh_download, policy_text_ssh_forward,
  policy_text_session_send,
}

-- What the work of a call hands to its executor. The default arguments of the executors and the bound
-- on the buffered output, `max_output_hard`, are left out; the signal of `session_kill` stands by its name.
pub data Work : Type 0 where
  run_command : Text → ℕ → Text → Text → Bool → Bool → Text → Work
  run_script : Text → Text → Bool → ℕ → Text → Text → Work
  spawn_local : Text → Text → Text → ℤ → ℤ → Work
  run_remote : Text → Text → ℕ → Kwargs → Work
  open_process : Text → Text → ℤ → ℤ → Kwargs → Work
  sftp_put : Text → Text → Text → Bool → ℕ → Kwargs → Work
  sftp_get : Text → Text → Text → Bool → ℕ → Kwargs → Work
  add_forward : Text → Text → Kwargs → Work
  list_forwards : Work
  drop_forward : Text → Work
  send_data : Text → Text → Work
  recv_data : Text → Text → ℕ → Work
  resize_to : Text → ℕ → ℕ → Work
  kill_session : Text → Text → Bool → Work
  list_sessions : Work

-- What a wrapper hands to the runner.
pub record Request : Type 0 where
  pub tool : Text
  pub audit_args : Dict Text
  pub policy_text : Text
  pub max_output : ℤ
  pub work : Work

-- What the runner takes besides: the ids of the context, the ending of the work, and the readings
-- of the confirmation broker.
pub record Given : Type 0 where
  pub request_id : Text
  pub client_id : Text
  pub ending : Ending
  pub consume_at : ℕ
  pub plan_at : ℕ
  pub token : Text

unfoldable pub call_of : Request → Given → Call
call_of r g = record {
  tool = r.tool;
  request_id = g.request_id;
  client_id = g.client_id;
  audit_args = r.audit_args;
  policy_text = r.policy_text;
  max_output = r.max_output;
  ending = g.ending;
  min_tier = Tier.read_only;
  extra_notices = [];
  json_notices = false;
  consume_at = g.consume_at;
  plan_at = g.plan_at;
  token = g.token;
}

unfoldable pub show_bool : Bool → Text
show_bool true = codes "true"
show_bool false = codes "false"

unfoldable pub or_default : Text → Text → Text
or_default [] b = b
or_default (c ∷ a) b = c ∷ a

-- `f"{cols}x{rows}"`
unfoldable pub size_text : ℤ → ℤ → Text
size_text cols rows = show_int cols ++ 120 ∷ show_int rows

-- `Relay.clamp_timeout`, and the timeout of a transfer, which is off unless it is positive.
unfoldable pub clamp_timeout : Settings → ℤ → ℕ
unfolding clamp
clamp_timeout s timeout = clamp timeout 1 s.max_timeout

unfoldable pub transfer_timeout : Settings → ℤ → ℕ
unfolding clamp_timeout
transfer_timeout s (negsuc n) = 0
transfer_timeout s (pos n) = if leb n 0 then 0 else clamp_timeout s (pos n)

unfoldable pub request_with : Text → Dict Text → ℤ → Work → Option Text → Option Request
request_with tool args bound work none = none
request_with tool args bound work (some text) =
    some (record {
      tool = tool;
      audit_args = args;
      policy_text = text;
      max_output = bound;
      work = work;
    })

-- The wrappers of the local shell.
unfoldable pub shell_exec : Settings → Text → ℤ → ℤ → Text → Text → Bool → Bool → Text → Request
unfolding exec_timeout policy_text_shell_exec show_bool
shell_exec s command timeout max_output cwd stdin merge_stderr use_shell env_json = record {
  tool = codes "shell_exec";
  audit_args =
      (codes "command", command)
      ∷ (codes "timeout", show_nat (exec_timeout s timeout))
      ∷ (codes "cwd", cwd)
      ∷ (codes "use_shell", show_bool use_shell)
      ∷ (codes "stdin", stdin)
      ∷ (codes "env_json", env_json)
      ∷ [];
  policy_text = policy_text_shell_exec command stdin env_json;
  max_output = max_output;
  work = run_command command (exec_timeout s timeout) cwd stdin merge_stderr use_shell env_json;
}

unfoldable pub shell_script : Settings → Text → Text → Bool → ℤ → Text → Text → Request
unfolding clamp_timeout policy_text_shell_script show_bool
shell_script s script interpreter strict timeout cwd env_json = record {
  tool = codes "shell_script";
  audit_args =
      (codes "interpreter", interpreter)
      ∷ (codes "strict", show_bool strict)
      ∷ (codes "script", script)
      ∷ (codes "timeout", show_nat (clamp_timeout s timeout))
      ∷ (codes "cwd", cwd)
      ∷ (codes "env_json", env_json)
      ∷ [];
  policy_text = policy_text_shell_script script env_json;
  max_output = pos 65536;
  work = run_script script interpreter strict (clamp_timeout s timeout) cwd env_json;
}

unfoldable pub shell_spawn : Text → ℤ → ℤ → Text → Text → Request
unfolding policy_text_shell_spawn or_default size_text
shell_spawn command cols rows cwd env_json = record {
  tool = codes "shell_spawn";
  audit_args =
      (codes "command", or_default command (codes "/bin/bash"))
      ∷ (codes "size", size_text cols rows)
      ∷ (codes "cwd", cwd)
      ∷ (codes "env_json", env_json)
      ∷ [];
  policy_text = policy_text_shell_spawn command env_json;
  max_output = pos 4096;
  work = spawn_local command cwd env_json cols rows;
}

-- The wrappers of the sessions.
unfoldable pub session_recv : Settings → Text → Text → ℤ → Request
unfolding clamp
session_recv s session_id timeout max_bytes = record {
  tool = codes "session_recv";
  audit_args = (codes "session_id", session_id) ∷ (codes "timeout", timeout) ∷ [];
  policy_text = [];
  max_output = max_bytes;
  work = recv_data session_id timeout (clamp max_bytes 256 s.max_output_hard);
}

unfoldable pub session_resize : Text → ℤ → ℤ → Request
unfolding clamp
session_resize session_id cols rows = record {
  tool = codes "session_resize";
  audit_args =
      (codes "session_id", session_id)
      ∷ (codes "cols", show_int cols)
      ∷ (codes "rows", show_int rows)
      ∷ [];
  policy_text = [];
  max_output = pos 512;
  work = resize_to session_id (clamp cols 1 65535) (clamp rows 1 65535);
}

unfoldable pub session_kill : Text → Text → Bool → Request
unfolding show_bool
session_kill session_id signal_name close = record {
  tool = codes "session_kill";
  audit_args =
      (codes "session_id", session_id)
      ∷ (codes "signal", signal_name)
      ∷ (codes "close", show_bool close)
      ∷ [];
  policy_text = [];
  max_output = pos 512;
  work = kill_session session_id signal_name close;
}

unfoldable pub session_list : Request
session_list = record {
  tool = codes "session_list";
  audit_args = [];
  policy_text = [];
  max_output = pos 65536;
  work = list_sessions;
}

-- How `session_send` records its input: a prompt for a secret, the setting `hash`, or neither.
unfoldable pub send_args : (Text → Text) → Bool → Bool → Text → Dict Text
unfolding show_nat
send_args sha256_hex secret hashed data_text =
    if secret
    then (codes "data", codes "[REDACTED: secret prompt]")
      ∷ (codes "data_len", show_nat (length data_text))
      ∷ []
    else if hashed
    then (codes "data_len", show_nat (length data_text))
      ∷ (codes "data_sha256", sha256_hex data_text)
      ∷ []
    else (codes "data", data_text) ∷ []

unfoldable pub session_send : (Text → Text) → Bool → Bool → Text → Text → Bool → Text → Request
unfolding send_args show_bool policy_text_session_send
session_send sha256_hex secret hashed session_id data_text enter pending = record {
  tool = codes "session_send";
  audit_args =
      (codes "session_id", session_id)
      ∷ (codes "enter", show_bool enter)
      ∷ send_args sha256_hex secret hashed data_text;
  policy_text = policy_text_session_send data_text pending;
  max_output = pos 2048;
  work = send_data session_id (if enter then data_text ++ 10 ∷ [] else data_text);
}
