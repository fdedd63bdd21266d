-- ===== src/KeyShare/Service.antt =====
-- internal/keyshare/service.go: sessions are created within a rate limit, take one encrypted key, and are
-- deleted some time after they expire.
use enchanted_proxy.Prelude.{
  ltb, leb, ◌+◌, ◌*◌, ℕ, Bool, true, false, ◌&&◌, ◌||◌, not, [], Option, none, some, Text, codes,
  text_eq, if◌then◌else◌, text_key,
}
use enchanted_proxy.KeyShare.Store.{
  pending, completed, expired, unknown, EphemeralPublicKey, KeyShareSession, Sessions, Code, ok,
  not_found, permission_denied, failed_precondition, deadline_exceeded, invalid_argument,
  resource_exhausted, internal, Environment, insert_session, found, failed, get_session,
  update_session_with_key, count_recent_sessions, delete_expired_sessions,
}

abbrev pub rate_limit_sessions_per_hour : ℕ
rate_limit_sessions_per_hour = 10

abbrev pub session_expiration : ℕ
session_expiration = 5 * 60

unfoldable pub validate_ephemeral_public_key : EphemeralPublicKey → Bool
validate_ephemeral_public_key key =
    text_eq key.kty (codes "EC")
    && text_eq key.crv (codes "P-256")
    && not (text_eq key.x [] || text_eq key.y [])

-- An error of the count does not stop the request.
unfoldable pub check_rate_limit : Environment → Text → Sessions → Code
check_rate_limit env user db = elim (count_recent_sessions env user db) [
  | none ↦ ok
  | some count ↦ if leb rate_limit_sessions_per_hour count then resource_exhausted else ok
]

abbrev pub new_session : Environment → Text → EphemeralPublicKey → KeyShareSession
new_session env user key = record {
  user_id = user;
  ephemeral_public_key = key;
  status = pending;
  encrypted_private_key = [];
  created_at = env.now;
  expires_at = env.now + session_expiration;
  completed_at = none;
}

abbrev pub or_internal : Code → Code
or_internal ok = ok
or_internal _ = internal

abbrev pub is_ok : Code → Bool
is_ok ok = true
is_ok _ = false

-- CreateSession
unfoldable pub create_session : Environment → Text → EphemeralPublicKey → Sessions → Sessions × Code
create_session env user key db =
    if not (validate_ephemeral_public_key key)
    then (db, invalid_argument)
    else if not (is_ok (check_rate_limit env user db))
    then (db, check_rate_limit env user db)
    else (let (db', code) = insert_session env env.session_id (new_session env user key) db in
        (db', or_internal code))

-- The tests of `validateSessionStatus`, in the order of the code.
unfoldable pub validate_session_status : ℕ → KeyShareSession → Code
validate_session_status now session = elim session.status [
  | completed ↦ failed_precondition
  | expired ↦ failed_precondition
  | pending ↦ if ltb session.expires_at now then deadline_exceeded else ok
  | unknown _ ↦ if ltb session.expires_at now then deadline_exceeded else failed_precondition
]

-- A session that is not there is reported, other errors of Firestore are internal.
abbrev pub or_not_found : Code → Code
or_not_found not_found = not_found
or_not_found _ = internal

-- The first half of SubmitEncryptedKey: it reads the session and checks it.
unfoldable pub check_submission : Environment → Text → Text → Sessions → Code
unfolding validate_session_status
check_submission env user id db = elim (get_session env id db) [
  | failed code ↦ or_not_found code
  | found session ↦
      if text_eq session.user_id user
      then validate_session_status env.now session
      else permission_denied
]

-- The second half writes the key.
unfoldable pub store_key : Environment → Text → Text → Sessions → Sessions × Code
store_key env id key db =
    let (db', code) = update_session_with_key env id key db in (db', or_internal code)

-- SubmitEncryptedKey up to the broadcast, whose errors are only logged.
unfoldable pub submit_encrypted_key : Environment → Text → Text → Text → Sessions → Sessions × Code
unfolding check_submission store_key
submit_encrypted_key env user id key db =
    if is_ok (check_submission env user id db)
    then store_key env id key db
    else (db, check_submission env user id db)

unfoldable pub cleanup_expired_sessions : Environment → Sessions → Sessions × Option ℕ
cleanup_expired_sessions env db = delete_expired_sessions env 100 db
