-- ===== src/KeyShare/Submission.antt =====
-- What a submitted key does to the sessions (`SubmitEncryptedKey`, internal/keyshare/service.go).
use mathlib.Core.Option.{some-injective}
use enchanted_proxy.Prelude.{
  ◌≤◌, ℕ, true, false, ◌||◌, [], some, Text, text_eq, text_key, if◌then◌else◌, lookup, insert, ◌≡◌,
  ◌≢◌, ◌⊎◌, inl, inr, refl, sym, ap, ◌∙◌, arith, Bool-cases, Option-cases, lookup-insert_self,
  text_eq_iff,
}
use enchanted_proxy.KeyShare.Store.{
  SessionStatus, pending, completed, expired, unknown, KeyShareSession, Sessions, Code, ok,
  not_found, already_exists, permission_denied, failed_precondition, deadline_exceeded,
  invalid_argument, resource_exhausted, internal, Environment, Found, found, failed, get_session,
  update_session_with_key,
}
use enchanted_proxy.KeyShare.Service.{
  or_not_found, check_submission, store_key, submit_encrypted_key, is_ok, validate_session_status,
}

-- A session that takes a key from this user at this time.
pub record IsOpen (env : Environment) (user id : Text) (db : Sessions) (s : KeyShareSession)
    : Type 0 where
  pub there : lookup id db ≡ some s
  pub owned : s.user_id ≡ user
  pub waiting : s.status ≡ pending
  pub in_time : env.now ≤ s.expires_at

validate_session_status-ok :
    (now : ℕ) (s : KeyShareSession)
    → validate_session_status now s ≡ ok
    → (s.status ≡ pending) × (now ≤ s.expires_at)
unfolding validate_session_status
validate_session_status-ok now s h = by_status s.status refl
  where
    by_status : (t : SessionStatus) → s.status ≡ t → (s.status ≡ pending) × (now ≤ s.expires_at)
    by_status pending e = (e, ground arith)
    by_status completed e = ground arith
    by_status expired e = ground arith
    by_status (unknown t) e = ground arith

get_session-found :
    (env : Environment) (id : Text) (db : Sessions) (s : KeyShareSession)
    → get_session env id db ≡ found s
    → lookup id db ≡ some s
unfolding get_session
get_session-found env id db s h = ground arith

pub or_not_found-ne : (c : Code) → or_not_found c ≢ ok
or_not_found-ne ok h = cc
or_not_found-ne not_found h = cc
or_not_found-ne already_exists h = cc
or_not_found-ne permission_denied h = cc
or_not_found-ne failed_precondition h = cc
or_not_found-ne deadline_exceeded h = cc
or_not_found-ne invalid_argument h = cc
or_not_found-ne resource_exhausted h = cc
or_not_found-ne internal h = cc

pub check_submission-IsOpen :
    (env : Environment) (user id : Text) (db : Sessions)
    → check_submission env user id db ≡ ok
    → (s : KeyShareSession) × IsOpen env user id db s
unfolding check_submission
check_submission-IsOpen env user id db h = by_result (get_session env id db) refl
  where
    by_result :
        (r : Found) → get_session env id db ≡ r → (s : KeyShareSession) × IsOpen env user id db s
    by_result (failed c) e = absurd (or_not_found-ne c (rw (e, check_submission) at h))
    by_result (found s) e =
        let k : (if text_eq s.user_id user
              then validate_session_status env.now s
              else permission_denied)
            ≡ ok =
          rw (e, check_submission) at h in
        elim (Bool-cases (text_eq s.user_id user)) [
          | inl own ↦
              let v = validate_session_status-ok env.now s (rw own at k) in
              (
                s,
                record {
                  there = get_session-found env id db s e;
                  owned = (text_eq_iff s.user_id user).0 own;
                  waiting = v.0;
                  in_time = v.1;
                },
              )
          | inr other ↦ let m : permission_denied ≡ ok = rw other at k in cc
        ]

-- The session with its key.
abbrev pub keyed : Environment → Text → KeyShareSession → KeyShareSession
keyed env key s = record s {
  status = completed;
  encrypted_private_key = key;
  completed_at = some env.now;
}

-- The write has its effect, or reports an error and has none.
abbrev pub Writes : Environment → Text → Text → Sessions → Sessions × Code → Type 0
Writes env id key db r =
    ((s : KeyShareSession) × (lookup id db ≡ some s) × (r ≡ (insert id (keyed env key s) db, ok)))
    ⊎ ((r.0 ≡ db) × (r.1 ≢ ok))

store_key-Writes :
    (env : Environment) (id key : Text) (db : Sessions)
    → Writes env id key db (store_key env id key db)
unfolding store_key update_session_with_key
store_key-Writes env id key db = elim (Bool-cases (text_eq id [] || text_eq key [])) [
  | inl a ↦ rw a (inr (refl, λ h. cc))
  | inr a ↦ rw a (elim (Bool-cases env.update_fails) [
    | inl b ↦ rw b (inr (refl, λ h. cc))
    | inr b ↦ rw b (elim (Option-cases (lookup id db)) [
      | inl e ↦ rw e (inr (refl, λ h. cc))
      | inr (s, e) ↦ rw e (inl (s, refl, refl))
    ])
  ])
]

pub is_ok-cases : (c : Code) → ((is_ok c ≡ true) × (c ≡ ok)) ⊎ ((is_ok c ≡ false) × (c ≢ ok))
is_ok-cases ok = inl (refl, refl)
is_ok-cases not_found = inr (refl, λ h. cc)
is_ok-cases already_exists = inr (refl, λ h. cc)
is_ok-cases permission_denied = inr (refl, λ h. cc)
is_ok-cases failed_precondition = inr (refl, λ h. cc)
is_ok-cases deadline_exceeded = inr (refl, λ h. cc)
is_ok-cases invalid_argument = inr (refl, λ h. cc)
is_ok-cases resource_exhausted = inr (refl, λ h. cc)
is_ok-cases internal = inr (refl, λ h. cc)

-- What becomes of the sessions.
pub submit_encrypted_key-outcome :
    (env : Environment) (user id key : Text) (db : Sessions)
    → ((s : KeyShareSession) × IsOpen env user id db s
        × (submit_encrypted_key env user id key db ≡ (insert id (keyed env key s) db, ok)))
      ⊎ (((submit_encrypted_key env user id key db).0 ≡ db)
          × ((submit_encrypted_key env user id key db).1 ≢ ok))
unfolding submit_encrypted_key
submit_encrypted_key-outcome env user id key db =
    elim (is_ok-cases (check_submission env user id db)) [
      | inr (a, refused) ↦ rw a (inr (refl, refused))
      | inl (a, passes) ↦ rw a (
          let (s, open_session) = check_submission-IsOpen env user id db passes in
          elim (store_key-Writes env id key db) [
            | inr none_written ↦ inr none_written
            | inl (t, e, written) ↦
                let same : t ≡ s = some-injective t s (sym e ∙ open_session.there) in
                let result : KeyShareSession → Sessions × Code =
                  λ v. (insert id (keyed env key v) db, ok) in
                inl (s, open_session, written ∙ ap result same)
          ])
    ]

pub store_key-accepted :
    (env : Environment) (id key : Text) (db : Sessions) (s : KeyShareSession)
    → (text_eq id [] || text_eq key []) ≡ false
    → env.update_fails ≡ false
    → lookup id db ≡ some s
    → store_key env id key db ≡ (insert id (keyed env key s) db, ok)
unfolding store_key update_session_with_key
store_key-accepted env id key db s named up e = rw named (rw up (rw e refl))

-- Two submissions to one session that are both checked before either writes are both accepted, and the
-- session ends with the key of the one that writes last: the first device's key is lost although it was told
-- that it was taken.
pub submissions_race :
    (env env' : Environment) (user id key key' : Text) (db : Sessions)
    → check_submission env user id db ≡ ok
    → check_submission env' user id db ≡ ok
    → (text_eq id [] || text_eq key []) ≡ false
    → (text_eq id [] || text_eq key' []) ≡ false
    → env.update_fails ≡ false
    → env'.update_fails ≡ false
    → let first = store_key env id key db in
      let second = store_key env' id key' first.0 in
      (s : KeyShareSession) × (first.1 ≡ ok)
      × (second.1 ≡ ok)
      × (lookup id second.0 ≡ some s)
      × (s.encrypted_private_key ≡ key')
submissions_race env env' user id key key' db passes passes' named named' up up' =
    let (s, open_session) = check_submission-IsOpen env user id db passes in
    let first = store_key-accepted env id key db s named up open_session.there in
    let between = keyed env key s in
    rw first (
      let there : lookup id (insert id between db) ≡ some between =
        lookup-insert_self id between db in
      rw (store_key-accepted env' id key' (insert id between db) between named' up' there)
        (keyed env' key' between, refl, refl, lookup-insert_self id _ _, refl))
