-- ===== src/KeyShare/Quiet.antt =====
-- How many sessions a user creates in an hour without a cleanup (internal/keyshare/service.go).
use enchanted_proxy.Prelude.{
  take, remove, subst, leb, ◌+◌, ◌≤◌, ◌<◌, ℕ, true, false, ◌||◌, List, [], ◌∷◌, none, some, Text,
  text_eq, text_key, if◌then◌else◌, lookup, insert, select, ◌≡◌, ◌⊎◌, inl, inr, refl, sym, ap, ◌∙◌,
  arith, Bool-cases, Option-cases, text_eq_iff,
}
use enchanted_proxy.KeyShare.Store.{
  is_over, delete_expired_sessions, delete_all, resource_exhausted, EphemeralPublicKey,
  KeyShareSession, Sessions, Environment, is_recent, insert_session,
}
use enchanted_proxy.KeyShare.Service.{
  cleanup_expired_sessions, check_rate_limit, create_session, submit_encrypted_key, is_ok,
  validate_ephemeral_public_key, new_session,
}
use enchanted_proxy.KeyShare.Submission.{keyed, submit_encrypted_key-outcome}
use enchanted_proxy.KeyShare.Limits.{recent, check_rate_limit-recent, select-remove}
use enchanted_proxy.KeyShare.WriteOnce.{Op, create, submit, cleanup, apply, apply_all}

recent_later :
    (now later : ℕ) (user : Text) (db : Sessions)
    → now ≤ later
    → recent later user db ≤ recent now user db
recent_later now later user [] h = omega arith
recent_later now later user ((id, s) ∷ db) h = ground (arith, recent_later now later user db h)

recent-insert_new :
    (now : ℕ) (user id : Text) (s : KeyShareSession) (db : Sessions)
    → lookup id db ≡ none
    → recent now user (insert id s db)
      ≡ recent now user db + (if is_recent now user (id, s) then 1 else 0)
recent-insert_new now user id s [] h = ground arith
recent-insert_new now user id s ((j, t) ∷ db) h = ground (arith, recent-insert_new now user id s db)

-- A session that changes neither its owner nor its time counts as before.
recent-insert_old :
    (now : ℕ) (user id : Text) (s t : KeyShareSession) (db : Sessions)
    → lookup id db ≡ some s
    → t.user_id ≡ s.user_id
    → t.created_at ≡ s.created_at
    → recent now user (insert id t db) ≡ recent now user db
recent-insert_old now user id s t [] e p q = cc
recent-insert_old now user id s t ((j, r) ∷ db) e p q =
    ground (arith, recent-insert_old now user id s t db)

insert_session-outcome :
    (env : Environment) (id : Text) (s : KeyShareSession) (db : Sessions)
    → ((lookup id db ≡ none) × ((insert_session env id s db).0 ≡ insert id s db))
      ⊎ ((insert_session env id s db).0 ≡ db)
unfolding insert_session
insert_session-outcome env id s db = elim (Bool-cases (text_eq id [])) [
  | inl a ↦ rw a (inr refl)
  | inr a ↦ rw a (elim (Bool-cases env.create_fails) [
    | inl b ↦ rw b (inr refl)
    | inr b ↦ rw b (elim (Option-cases (lookup id db)) [
      | inl e ↦ rw e (inl (refl, refl))
      | inr (r, e) ↦ rw e (inr refl)
    ])
  ])
]

-- A request creates its session, within the limit and under a new id, or changes nothing.
create_session-outcome :
    (env : Environment) (user : Text) (key : EphemeralPublicKey) (db : Sessions)
    → ((is_ok (check_rate_limit env user db) ≡ true)
        × (lookup env.session_id db ≡ none)
        × ((create_session env user key db).0
            ≡ insert env.session_id (new_session env user key) db))
      ⊎ ((create_session env user key db).0 ≡ db)
unfolding create_session
create_session-outcome env user key db = elim (Bool-cases (validate_ephemeral_public_key key)) [
  | inr a ↦ rw a (inr refl)
  | inl a ↦ rw a (elim (Bool-cases (is_ok (check_rate_limit env user db))) [
    | inr b ↦ rw b (inr refl)
    | inl b ↦ rw b (elim (insert_session-outcome env env.session_id (new_session env user key) db) [
      | inl (new, r) ↦ inl (refl, new, r)
      | inr r ↦ inr r
    ])
  ])
]

abbrev pub WithinLimit : ℕ → Sessions → Type 0
WithinLimit now db = (user : Text) → text_eq user [] ≡ false → recent now user db ≤ 10

below_limit :
    (env : Environment) (user : Text) (db : Sessions)
    → text_eq user [] ≡ false
    → env.count_fails ≡ false
    → is_ok (check_rate_limit env user db) ≡ true
    → recent env.now user db < 10
below_limit env user db named counted passes =
    let counts : (text_eq user [] || env.count_fails) ≡ false = rw (named, counted) in
    let test = check_rate_limit-recent env user db counts in
    elim (Bool-cases (leb 10 (recent env.now user db))) [
      | inl full ↦
          let refused : check_rate_limit env user db ≡ resource_exhausted = rw full at test in
          let clash : false ≡ true = sym (ap is_ok refused) ∙ passes in cc
      | inr less ↦ ground (arith, less)
    ]

create_session-WithinLimit :
    (env : Environment) (user : Text) (key : EphemeralPublicKey) (db : Sessions)
    → env.count_fails ≡ false
    → WithinLimit env.now db
    → WithinLimit env.now (create_session env user key db).0
create_session-WithinLimit env user key db counted h v named =
    elim (create_session-outcome env user key db) [
      | inr same ↦ rw same (h v named)
      | inl (passes, new, r) ↦ rw r (elim (Bool-cases (text_eq user v)) [
        | inl own ↦
            let passes_v : is_ok (check_rate_limit env v db) ≡ true =
              subst (λ u. is_ok (check_rate_limit env u db) ≡ true) ((text_eq_iff user v).0 own)
                passes in
            ground (
              arith,
              recent-insert_new env.now v env.session_id (new_session env user key) db,
              below_limit env v db named counted passes_v,
            )
        | inr other ↦ ground (
          arith,
          recent-insert_new env.now v env.session_id (new_session env user key) db,
          h v named,
        )
      ])
    ]

submit-recent :
    (env : Environment) (user id key v : Text) (now : ℕ) (db : Sessions)
    → recent now v (submit_encrypted_key env user id key db).0 ≡ recent now v db
submit-recent env user id key v now db = elim (submit_encrypted_key-outcome env user id key db) [
  | inr (same, _) ↦ rw same refl
  | inl (s, o, r) ↦ rw r (recent-insert_old now v id s (keyed env key s) db o.there refl refl)
]

delete_all-recent :
    (now : ℕ) (v : Text) (rows db : Sessions) → recent now v (delete_all rows db) ≤ recent now v db
delete_all-recent now v [] db = omega arith
delete_all-recent now v ((id, s) ∷ rows) db =
    omega
      (arith, delete_all-recent now v rows (remove id db), select-remove (is_recent now v) id db)

cleanup-recent :
    (env : Environment) (v : Text) (now : ℕ) (db : Sessions)
    → recent now v (cleanup_expired_sessions env db).0 ≤ recent now v db
unfolding cleanup_expired_sessions delete_expired_sessions
cleanup-recent env v now db = elim (Bool-cases env.delete_fails) [
  | inl a ↦ rw a (omega arith)
  | inr a ↦ rw a (delete_all-recent now v (take 100 (select (is_over env.now) db)) db)
]

abbrev pub environment_of : Op → Environment
environment_of (create env user key) = env
environment_of (submit env user id key) = env
environment_of (cleanup env) = env

-- The clock does not go back, and the sessions of a user can be counted.
abbrev pub Orderly : ℕ → List Op → Type 0
Orderly now [] = Unit
Orderly now (op ∷ ops) =
    (now ≤ (environment_of op).now)
    × ((environment_of op).count_fails ≡ false)
    × Orderly (environment_of op).now ops

abbrev pub end_time : ℕ → List Op → ℕ
end_time now [] = now
end_time now (op ∷ ops) = end_time (environment_of op).now ops

apply-WithinLimit :
    (op : Op) (db : Sessions)
    → (environment_of op).count_fails ≡ false
    → WithinLimit (environment_of op).now db
    → WithinLimit (environment_of op).now (apply op db)
apply-WithinLimit (create env user key) db counted h v named =
    create_session-WithinLimit env user key db counted h v named
apply-WithinLimit (submit env user id key) db counted h v named =
    omega (arith, submit-recent env user id key v env.now db, h v named)
apply-WithinLimit (cleanup env) db counted h v named =
    omega (arith, cleanup-recent env v env.now db, h v named)

-- However many sessions are asked for, submitted to and cleaned up, one after the other, no user with a name
-- ever has more than ten sessions in the collection that were created in the last hour, as long as Firestore
-- can count them.
pub sessions-WithinLimit :
    (now : ℕ) (ops : List Op) (db : Sessions)
    → Orderly now ops
    → WithinLimit now db
    → WithinLimit (end_time now ops) (apply_all ops db)
unfolding apply_all
sessions-WithinLimit now [] db o h = h
sessions-WithinLimit now (op ∷ ops) db o h =
    sessions-WithinLimit (environment_of op).now ops (apply op db) o.2 (
      apply-WithinLimit op db o.1
        λ v named. omega (arith, recent_later now (environment_of op).now v db o.0, h v named))
