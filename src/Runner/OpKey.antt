-- ===== src/Runner/OpKey.antt =====
-- The key that a confirmation is bound to (`_confirm_op_key` of src/relay_shell/server.py).
use relay_shell.Prelude.{◌≡◌, ◌∷◌, ◌++◌, Text, Dict, IsFree, split_first, split_last}
use relay_shell.Broker.{op_hash}
use relay_shell.Policy.{Policy}
use relay_shell.Runner.{Settings, Library, confirm_op_key}

abbrev pub IsNulFree : Text → Type 0
IsNulFree s = IsFree 0 s

-- Two calls whose confirmations have one hash, short of a SHA-256 collision between them, have the
-- same tool, the same policy text and the same printed arguments. The tool names and the printed
-- arguments hold no NUL: the tools are named in the source, and JSON escapes control characters.
pub op_hash-inj :
    (L : Library) (settings : Settings) (policy : Policy) (tool other_tool text other_text : Text)
    (args other_args : Dict Text)
    → IsNulFree tool
    → IsNulFree other_tool
    → IsNulFree (L.dumps args)
    → IsNulFree (L.dumps other_args)
    → (L.sha256_hex (tool ++ 0 ∷ confirm_op_key L settings policy text args)
          ≡ L.sha256_hex (other_tool ++ 0 ∷ confirm_op_key L settings policy other_text other_args)
        → tool ++ 0 ∷ confirm_op_key L settings policy text args
          ≡ other_tool ++ 0 ∷ confirm_op_key L settings policy other_text other_args)
    → op_hash L.sha256_hex tool (confirm_op_key L settings policy text args)
      ≡ op_hash L.sha256_hex other_tool (confirm_op_key L settings policy other_text other_args)
    → (tool ≡ other_tool) × (text ≡ other_text) × (L.dumps args ≡ L.dumps other_args)
unfolding op_hash confirm_op_key
op_hash-inj L settings policy tool other_tool text other_text args other_args p q u v inj e =
    let (tools, keys) = split_first 0 tool other_tool _ _ p q (inj e) in
    let (texts, printed) = split_last 0 text other_text _ _ u v keys in (tools, texts, printed)
