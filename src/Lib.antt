-- ===== src/Lib.antt =====
-- relay-shell is an MCP server that runs shell commands, PTY sessions and SSH operations under a
-- tier policy, with every call audited. This library models parts of its Python package
-- src/relay_shell and proves what makes them correct.
--
-- A tool call goes through the runner. It bounds the input, asks the policy for a tier and an
-- admission, asks the confirmation broker about irreversible calls, writes an intent record if that
-- is set, awaits the work, and leaves a completion record and a count. The audit logger chains the
-- records by hash, and verify_chain reads them back. Sessions outlive a call in the registry.
-- Over HTTP an OAuth provider decides who may call. A seccomp filter reports the syscalls of the
-- children.
--
-- Which file models what, a definition under the name of the Python one where there is one:
--   Policy, Policy/Continuation: src/relay_shell/policy.py (assess, classify, Policy.check) and
--     LINE_CONTINUATION_PATTERN of src/relay_shell/patterns.py. A compiled pattern is a test on text,
--     and the regex tables are the record Patterns.
--   Broker, Broker/Store: ConfirmationBroker of src/relay_shell/broker.py.
--   Runner: Relay.run, _confirm_op_key and the clamps of src/relay_shell/server.py. The world is the
--     broker, the trail, the counters and the number of runs of the work; the work is its ending.
--   Notices, Util: src/relay_shell/notices.py and src/relay_shell/util.py.
--   Audit, Audit/Verify: the chain of src/relay_shell/audit.py, its writer, verifier and restart.
--   Sessions, Sessions/Line: SessionRegistry, _advance_line and _utf8_cut of
--     src/relay_shell/sessions.py. A definition is a stretch of code without an await, so a list of
--     events or requests is an interleaving of the coroutines; the sweep in add is a request of its own.
--   Oauth, Oauth/Grants, Oauth/Refresh: FileOAuthProvider of src/relay_shell/auth/oauth.py and the
--     commands of src/relay_shell/auth/admin.py, each one step under the provider's lock.
--   SshPool, SshPool/Cache, SshPool/Forwards, SshPool/KnownHosts, SshPool/Spec, SshPool/Drain:
--     src/relay_shell/sshpool.py without asyncssh and the transport. SshPool/Steps is the relation of
--     the stretches that its coroutines run, with what each holds between them.
--   SshPool/Connect: how SshPool.connect settles whom it dials, and effective_known_hosts and
--     connect_kwargs of src/relay_shell/server.py.
--   Redaction, Redaction/Scrub: redact, _scrub_str, _scrub and redact_args of src/relay_shell/redaction.py.
--   Inventory: src/relay_shell/inventory.py without the JSON of the inventory file.
--   Probe, Probe/Builders: the policy texts of the tools, from src/relay_shell/server.py.
--   Tools, Tools/Remote: what the tool wrappers of src/relay_shell/server.py hand to Relay.run, with the
--     call of an executor that the work makes.
--   Metrics: the counters and label format of src/relay_shell/metrics.py.
--   Verifier: verify_pair of src/relay_shell/verifier.py, on what the two files hold.
--   Seccomp, Seccomp/Tables: the notified set, _Assembler and build_filter of
--     src/relay_shell/seccomp.py; Seccomp/Machine reads the program as the kernel does.
--
-- Text is a list of code points and a dict an association list in insertion order. Clock readings,
-- drawn tokens and ids are arguments. Parameters stand for SHA-256, the JSON module, str.strip in
-- the audit module, the UTF-8 decoder, the decimal digits of Unicode, the match of asyncssh in
-- known_hosts, the readings of an address by ipaddress and inet_aton, the regex tables with their
-- substitutions, in the runner the redaction of its arguments, and normalize_resource; where a
-- theorem needs a law of one, it is a field or a hypothesis, and the examples give an instance.
--
-- Fuel: the scan of line continuations takes the length of the text, since each round takes a
-- character; a filter program takes its length, since its jumps go forward; decimal digits take the
-- number itself; _utf8_cut goes down at most four places, as the source says.
--
-- Not modelled: processes, terminals, sockets and files; the seccomp notification loop; asyncssh and
-- the SFTP transfers; the JSON of the inventory file; the tools over many hosts, the
-- resources and the prompts of the server; the exposition text of the metrics; the command line, the
-- configuration and the ASGI middleware.
pub mod Prelude
pub mod Broker
pub mod Audit
pub mod Policy
pub mod Util
pub mod Notices
pub mod Runner
pub mod Sessions
pub mod Oauth
pub mod Seccomp
pub mod Metrics
pub mod Verifier
pub mod SshPool
pub mod Probe
pub mod Inventory
pub mod Tools
pub mod Redaction
