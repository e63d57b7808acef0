-- ===== src/Conn/Secret.antt =====
-- `LPushConn::checkUserMessage`: which secrets are let in.
use linkedon_push.Common.{◌≡◌, ◌≢◌, ◌↔◌, refl, true, [], ◌∷◌, Bytes, arith, contains, c_str}
use linkedon_push.Errors.{error_success}
use linkedon_push.Protocol.Handshake.{HandshakeMessage}
use linkedon_push.Conn.{Env, check_secret, check_user_message}

check_secret_iff :
    (stored given : Bytes)
    → (check_secret stored given ≡ error_success)
      ↔ ((stored ≢ []) × (contains (c_str given) stored ≡ true))
unfolding check_secret
check_secret_iff [] given = (λ h. absurd (omega arith), λ h. absurd (h.0 refl))
check_secret_iff (b ∷ bs) given = (λ h. (λ e. cc, ground arith), λ h. ground arith)

-- A client is let in exactly if a secret is stored for its application and the secret that it sent,
-- up to its first NUL, occurs somewhere in it.
pub check_user_message_iff :
    (env : Env) (msg : HandshakeMessage)
    → (check_user_message env msg ≡ error_success) ↔ (
        (env.redis_hget env.app_keys msg.app_id ≢ [])
        × (contains (c_str msg.screte_key) (env.redis_hget env.app_keys msg.app_id) ≡ true))
unfolding check_user_message
check_user_message_iff env msg =
    check_secret_iff (env.redis_hget env.app_keys msg.app_id) msg.screte_key

contains_nil : (s : Bytes) → contains [] s ≡ true
contains_nil [] = refl
contains_nil (b ∷ s) = refl

-- A client that sends an empty secret is let in wherever a secret is stored for its application.
pub no_secret_enters :
    (env : Env) (msg : HandshakeMessage)
    → env.redis_hget env.app_keys msg.app_id ≢ []
    → msg.screte_key ≡ []
    → check_user_message env msg ≡ error_success
no_secret_enters env msg stored none_sent =
    (check_user_message_iff env msg).1
      (stored, rw none_sent (contains_nil (env.redis_hget env.app_keys msg.app_id)))
