-- ===== src/KeyShare/WriteOnce.antt =====
-- What becomes of a session that has its key (internal/keyshare/service.go).
use mathlib.Core.Option.{some-injective}
use enchanted_proxy.Prelude.{
  subst, List, [], ◌∷◌, none, some, Text, text_eq, text_key, lookup, remove, ◌≡◌, ◌≢◌, ◌⊎◌, inl,
  inr, refl, sym, ap, ◌∙◌, Bool-cases, Option-cases, lookup-insert, lookup-insert_ne, lookup-remove,
  text_eq_iff, take, select,
}
use enchanted_proxy.KeyShare.Store.{
  pending, completed, EphemeralPublicKey, KeyShareSession, Sessions, Environment, insert_session,
  delete_expired_sessions, delete_all, is_over,
}
use enchanted_proxy.KeyShare.Service.{
  submit_encrypted_key, create_session, cleanup_expired_sessions, is_ok,
  validate_ephemeral_public_key, check_rate_limit, new_session,
}
use enchanted_proxy.KeyShare.Submission.{keyed, submit_encrypted_key-outcome}

-- What happens to the sessions.
pub data Op : Type 0 where
  create : Environment → Text → EphemeralPublicKey → Op
  submit : Environment → Text → Text → Text → Op
  cleanup : Environment → Op

abbrev pub apply : Op → Sessions → Sessions
apply (create env user key) db = (create_session env user key db).0
apply (submit env user id key) db = (submit_encrypted_key env user id key db).0
apply (cleanup env) db = (cleanup_expired_sessions env db).0

unfoldable pub apply_all : List Op → Sessions → Sessions
apply_all [] db = db
apply_all (op ∷ ops) db = apply_all ops (apply op db)

-- No session is created under this id.
abbrev pub NotReused : Text → List Op → Type 0
NotReused id [] = Unit
NotReused id (create env user key ∷ ops) = (env.session_id ≢ id) × NotReused id ops
NotReused id (submit env user j key ∷ ops) = NotReused id ops
NotReused id (cleanup env ∷ ops) = NotReused id ops

-- The session stands there as it is, or is deleted.
abbrev pub KeptOrGone : Text → KeyShareSession → Sessions → Type 0
KeptOrGone id s db = (lookup id db ≡ some s) ⊎ (lookup id db ≡ none)

insert_session-lookup :
    (env : Environment) (j id : Text) (s : KeyShareSession) (db : Sessions)
    → j ≢ id
    → lookup id (insert_session env j s db).0 ≡ lookup id db
unfolding insert_session
insert_session-lookup env j id s db new = elim (Bool-cases (text_eq j [])) [
  | inl a ↦ rw a refl
  | inr a ↦ rw a (elim (Bool-cases env.create_fails) [
    | inl b ↦ rw b refl
    | inr b ↦ rw b (elim (Option-cases (lookup j db)) [
      | inl e ↦ rw e (lookup-insert_ne j id s db new)
      | inr (r, e) ↦ rw e refl
    ])
  ])
]

create_session-lookup :
    (env : Environment) (user id : Text) (key : EphemeralPublicKey) (db : Sessions)
    → env.session_id ≢ id
    → lookup id (create_session env user key db).0 ≡ lookup id db
unfolding create_session
create_session-lookup env user id key db new =
    elim (Bool-cases (validate_ephemeral_public_key key)) [
      | inr a ↦ rw a refl
      | inl a ↦ rw a (elim (Bool-cases (is_ok (check_rate_limit env user db))) [
        | inr b ↦ rw b refl
        | inl b ↦
            rw b (insert_session-lookup env env.session_id id (new_session env user key) db new)
      ])
    ]

delete_all-lookup :
    (id : Text) (s : KeyShareSession) (rows db : Sessions)
    → KeptOrGone id s db
    → KeptOrGone id s (delete_all rows db)
delete_all-lookup id s [] db h = h
delete_all-lookup id s ((j, r) ∷ rows) db h =
    delete_all-lookup id s rows (remove j db) (elim (Bool-cases (text_eq j id)) [
      | inl same ↦ inr (lookup-remove j id db ∙ rw same)
      | inr other ↦ rw (lookup-remove j id db, other) h
    ])

-- An open session is not the completed one, nor one that is gone.
open-ne-completed :
    (id : Text) (s t : KeyShareSession) (db : Sessions)
    → s.status ≡ completed
    → t.status ≡ pending
    → lookup id db ≡ some t
    → KeptOrGone id s db
    → ⊥
open-ne-completed id s t db done waiting e (inl kept) =
    let same : t ≡ s = some-injective t s (sym e ∙ kept) in
    let clash : pending ≡ completed =
      sym waiting ∙ ap (λ (v : KeyShareSession). v.status) same ∙ done in
    cc
open-ne-completed id s t db done waiting e (inr gone) = cc

submit-KeptOrGone :
    (env : Environment) (user j id key : Text) (s : KeyShareSession) (db : Sessions)
    → s.status ≡ completed
    → KeptOrGone id s db
    → KeptOrGone id s (submit_encrypted_key env user j key db).0
submit-KeptOrGone env user j id key s db done h =
    elim (submit_encrypted_key-outcome env user j key db) [
      | inr (same, _) ↦ rw same h
      | inl (t, open_session, r) ↦ rw r (elim (Bool-cases (text_eq j id)) [
        | inl here ↦ absurd (
            open-ne-completed id s t db done open_session.waiting
              (subst (λ k. lookup k db ≡ some t) ((text_eq_iff j id).0 here) open_session.there) h)
        | inr other ↦ rw (lookup-insert j id (keyed env key t) db, other) h
      ])
    ]

cleanup-KeptOrGone :
    (env : Environment) (id : Text) (s : KeyShareSession) (db : Sessions)
    → KeptOrGone id s db
    → KeptOrGone id s (cleanup_expired_sessions env db).0
unfolding cleanup_expired_sessions delete_expired_sessions
cleanup-KeptOrGone env id s db h = elim (Bool-cases env.delete_fails) [
  | inl a ↦ rw a h
  | inr a ↦ rw a (delete_all-lookup id s (take 100 (select (is_over env.now) db)) db h)
]

-- Once a session has its key, that is its key for good: whatever is created, submitted and cleaned up later, by
-- whomever and with whatever failures, the session stays as it is or is deleted, as long as its UUID is not
-- given to another session.
pub key_written_once :
    (ops : List Op) (id : Text) (s : KeyShareSession) (db : Sessions)
    → s.status ≡ completed
    → NotReused id ops
    → KeptOrGone id s db
    → KeptOrGone id s (apply_all ops db)
unfolding apply_all
key_written_once [] id s db done new h = h
key_written_once (create env user key ∷ ops) id s db done new h =
    key_written_once ops id s _ done new.1 (rw (create_session-lookup env user id key db new.0) h)
key_written_once (submit env user j key ∷ ops) id s db done new h =
    key_written_once ops id s _ done new (submit-KeptOrGone env user j id key s db done h)
key_written_once (cleanup env ∷ ops) id s db done new h =
    key_written_once ops id s _ done new (cleanup-KeptOrGone env id s db h)
