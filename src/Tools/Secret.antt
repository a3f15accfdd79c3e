-- ===== src/Tools/Secret.antt =====
-- What the audit record holds of a session's input (`session_send` of src/relay_shell/server.py).
use relay_shell.Prelude.{◌≡◌, refl, Bool, true, false, Text, length}
use relay_shell.Tools.{session_send, send_args}

-- Of what is typed at a prompt for a secret the audit arguments hold only the length, not even a
-- digest; under the setting `hash` they hold the length and the digest of any input.
pub session_send_secret :
    (sha256_hex : Text → Text) (hashed : Bool) (session_id data_text other pending : Text)
    (enter : Bool)
    → length data_text ≡ length other
    → ((session_send sha256_hex true hashed session_id data_text enter pending).audit_args
        ≡ (session_send sha256_hex true hashed session_id other enter pending).audit_args)
      × (sha256_hex data_text ≡ sha256_hex other
          → (session_send sha256_hex false true session_id data_text enter pending).audit_args
            ≡ (session_send sha256_hex false true session_id other enter pending).audit_args)
unfolding session_send send_args
session_send_secret sha256_hex hashed session_id data_text other pending enter same =
    (rw same refl, λ digest. rw (same, digest) refl)
