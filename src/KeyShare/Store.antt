-- ===== src/KeyShare/Store.antt =====
-- The collection of key sharing sessions (internal/keyshare/firestore.go, models.go). Times are in
-- seconds; the sessions stand in the order in which they were created, which is the order of their
-- expiry.
use enchanted_proxy.Prelude.{
  ltb, ◌+◌, ℕ, Bool, ◌&&◌, ◌||◌, List, [], ◌∷◌, Option, none, some, Text, text_eq, if◌then◌else◌,
  text_key, lookup, insert, remove, length, take, select,
}

pub data SessionStatus : Type 0 where
  pending : SessionStatus
  completed : SessionStatus
  expired : SessionStatus
  unknown : Text → SessionStatus

pub record EphemeralPublicKey : Type 0 where
  pub kty : Text
  pub crv : Text
  pub x : Text
  pub y : Text

pub record KeyShareSession : Type 0 where
  pub user_id : Text
  pub ephemeral_public_key : EphemeralPublicKey
  pub status : SessionStatus
  pub encrypted_private_key : Text
  pub created_at : ℕ
  pub expires_at : ℕ
  pub completed_at : Option ℕ

abbrev pub Sessions : Type 0
Sessions = List (Text × KeyShareSession)

-- The codes of gRPC.
pub data Code : Type 0 where
  ok : Code
  not_found : Code
  already_exists : Code
  permission_denied : Code
  failed_precondition : Code
  deadline_exceeded : Code
  invalid_argument : Code
  resource_exhausted : Code
  internal : Code

-- What a request meets: the clock, the next UUID, and which calls of Firestore fail.
pub record Environment : Type 0 where
  pub now : ℕ
  pub session_id : Text
  pub create_fails : Bool
  pub get_fails : Bool
  pub update_fails : Bool
  pub count_fails : Bool
  pub delete_fails : Bool

unfoldable pub insert_session : Environment → Text → KeyShareSession → Sessions → Sessions × Code
insert_session env id session db =
    if text_eq id []
    then (db, invalid_argument)
    else if env.create_fails
    then (db, internal)
    else elim (lookup id db) [ some _ ↦ (db, already_exists) | none ↦ (insert id session db, ok) ]

pub data Found : Type 0 where
  found : KeyShareSession → Found
  failed : Code → Found

unfoldable pub get_session : Environment → Text → Sessions → Found
get_session env id db =
    if text_eq id []
    then failed invalid_argument
    else if env.get_fails
    then failed internal
    else elim (lookup id db) [ none ↦ failed not_found | some session ↦ found session ]

unfoldable pub update_session_with_key : Environment → Text → Text → Sessions → Sessions × Code
update_session_with_key env id key db =
    if text_eq id [] || text_eq key []
    then (db, invalid_argument)
    else if env.update_fails
    then (db, internal)
    else elim (lookup id db) [
      | none ↦ (db, not_found)
      | some session ↦ (
        insert id
            (record session {
              status = completed;
              encrypted_private_key = key;
              completed_at = some env.now;
            })
            db,
        ok,
      )
    ]

abbrev pub hour : ℕ
hour = 3_600

-- Sessions of a user that were created in the last hour.
abbrev pub is_recent : ℕ → Text → Text × KeyShareSession → Bool
is_recent now user (id, s) = text_eq s.user_id user && ltb now (s.created_at + hour)

unfoldable pub count_recent_sessions : Environment → Text → Sessions → Option ℕ
count_recent_sessions env user db =
    if text_eq user [] || env.count_fails
    then none
    else some (length (select (is_recent env.now user) db))

abbrev pub is_over : ℕ → Text × KeyShareSession → Bool
is_over now (id, s) = ltb s.expires_at now

abbrev pub delete_all : Sessions → Sessions → Sessions
delete_all [] db = db
delete_all ((id, s) ∷ rows) db = delete_all rows (remove id db)

-- The number of deleted sessions, if the query and the batch of deletions succeed.
unfoldable pub delete_expired_sessions : Environment → ℕ → Sessions → Sessions × Option ℕ
delete_expired_sessions env batch_size db =
    let rows = take batch_size (select (is_over env.now) db) in
    if env.delete_fails then (db, none) else (delete_all rows db, some (length rows))
