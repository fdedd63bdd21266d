-- ===== src/KeyShare/Acceptance.antt =====
-- Exactly which keys `SubmitEncryptedKey` (internal/keyshare/service.go) accepts.
use enchanted_proxy.Prelude.{
  ◌≤◌, ℕ, true, false, [], some, Text, text_eq, text_key, lookup, insert, ◌≡◌, ◌≢◌, ◌⊎◌, ◌↔◌, inl,
  inr, refl, ap, arith, Bool-cases, text_eq_iff,
}
use enchanted_proxy.KeyShare.Store.{
  pending, KeyShareSession, Sessions, Code, ok, internal, Environment, found, get_session,
  update_session_with_key,
}
use enchanted_proxy.KeyShare.Service.{
  check_submission, store_key, submit_encrypted_key, validate_session_status,
}
use enchanted_proxy.KeyShare.Submission.{
  IsOpen, keyed, check_submission-IsOpen, is_ok-cases, store_key-accepted,
  submit_encrypted_key-outcome,
}

-- The session takes the key, neither the id nor the key is empty, and Firestore answers.
pub record Accepts (env : Environment) (user id key : Text) (db : Sessions) (s : KeyShareSession)
    : Type 0 where
  pub takes : IsOpen env user id db s
  pub named : text_eq id [] ≡ false
  pub given : text_eq key [] ≡ false
  pub reads : env.get_fails ≡ false
  pub writes : env.update_fails ≡ false

validate_session_status-pending :
    (now : ℕ) (s : KeyShareSession)
    → s.status ≡ pending
    → now ≤ s.expires_at
    → validate_session_status now s ≡ ok
unfolding validate_session_status
validate_session_status-pending now s e h = rw (e, validate_session_status) (ground arith)

get_session-answers :
    (env : Environment) (id : Text) (db : Sessions) (s : KeyShareSession)
    → text_eq id [] ≡ false
    → env.get_fails ≡ false
    → lookup id db ≡ some s
    → get_session env id db ≡ found s
unfolding get_session
get_session-answers env id db s named reads there = rw named (rw reads (rw there refl))

check_submission-Accepts :
    (env : Environment) (user id key : Text) (db : Sessions) (s : KeyShareSession)
    → Accepts env user id key db s
    → check_submission env user id db ≡ ok
unfolding check_submission
check_submission-Accepts env user id key db s a =
    let read = get_session-answers env id db s a.named a.reads a.takes.there in
    let own : text_eq s.user_id user ≡ true = (text_eq_iff s.user_id user).1 a.takes.owned in
    rw (read, check_submission)
      (rw own (validate_session_status-pending env.now s a.takes.waiting a.takes.in_time))

check_submission-reads :
    (env : Environment) (user id : Text) (db : Sessions)
    → check_submission env user id db ≡ ok
    → (text_eq id [] ≡ false) × (env.get_fails ≡ false)
unfolding check_submission get_session
check_submission-reads env user id db h = elim (Bool-cases (text_eq id [])) [
  | inl e ↦ let k : internal ≡ ok = rw (e, check_submission) at h in cc
  | inr e ↦ elim (Bool-cases env.get_fails) [ inl f ↦ absurd (ground arith) | inr f ↦ (e, f) ]
]

store_key-ok :
    (env : Environment) (id key : Text) (db : Sessions)
    → (store_key env id key db).1 ≡ ok
    → (text_eq key [] ≡ false) × (env.update_fails ≡ false)
unfolding store_key update_session_with_key
store_key-ok env id key db h = elim (Bool-cases (text_eq key [])) [
  | inl e ↦ absurd (ground arith)
  | inr e ↦ elim (Bool-cases env.update_fails) [ inl f ↦ absurd (ground arith) | inr f ↦ (e, f) ]
]

submit_encrypted_key-passes :
    (env : Environment) (user id key : Text) (db : Sessions)
    → (submit_encrypted_key env user id key db).1 ≡ ok
    → (check_submission env user id db ≡ ok) × ((store_key env id key db).1 ≡ ok)
unfolding submit_encrypted_key
submit_encrypted_key-passes env user id key db h =
    elim (is_ok-cases (check_submission env user id db)) [
      | inl (a, passes) ↦ (passes, rw (a, submit_encrypted_key) at h)
      | inr (a, refused) ↦ absurd (refused (rw (a, submit_encrypted_key) at h))
    ]

accepted :
    (env : Environment) (user id key : Text) (db : Sessions) (s : KeyShareSession)
    → Accepts env user id key db s
    → submit_encrypted_key env user id key db ≡ (insert id (keyed env key s) db, ok)
unfolding submit_encrypted_key
accepted env user id key db s a =
    rw (check_submission-Accepts env user id key db s a)
      (store_key-accepted env id key db s (ground (arith, a.named, a.given)) a.writes a.takes.there)

-- A key is accepted exactly if it is for a session that is there, belongs to the user who sends it, still waits
-- for its key and has not expired, neither the id nor the key is empty, and Firestore answers. Then exactly that
-- session is completed with the key; otherwise the request is refused with an error, and no session is changed.
pub submit_encrypted_key_iff :
    (env : Environment) (user id key : Text) (db : Sessions)
    → let r = submit_encrypted_key env user id key db in
      ((r.1 ≡ ok) ↔ ((s : KeyShareSession) × Accepts env user id key db s))
      × (((s : KeyShareSession) × IsOpen env user id db s
            × (r ≡ (insert id (keyed env key s) db, ok)))
          ⊎ ((r.0 ≡ db) × (r.1 ≢ ok)))
submit_encrypted_key_iff env user id key db = (
  (
    (λ h.
        let (checked, stored) = submit_encrypted_key-passes env user id key db h in
        let (s, open_session) = check_submission-IsOpen env user id db checked in
        let (named, reads) = check_submission-reads env user id db checked in
        let (given, writes) = store_key-ok env id key db stored in
        (
          s,
          record {
            takes = open_session;
            named = named;
            given = given;
            reads = reads;
            writes = writes;
          },
        )),
    (λ a. ap (λ (r : Sessions × Code). r.1) (accepted env user id key db a.0 a.1)),
  ),
  submit_encrypted_key-outcome env user id key db,
)
