-- ===== src/KeyShare/Limits.antt =====
-- The limit of sessions in an hour (`checkRateLimit`, internal/keyshare/service.go).
use enchanted_proxy.Prelude.{
  subst, leb, ◌≤◌, ◌<◌, ℕ, Bool, true, false, ◌&&◌, ◌||◌, not, [], ◌∷◌, Option, none, some, Text,
  text_eq, text_key, if◌then◌else◌, remove, length, take, select, All, ◌≡◌, inl, inr, refl, sym, ap,
  ◌∙◌, arith, Bool-cases, text_eq_iff, take_all, any,
}
use enchanted_proxy.KeyShare.Store.{
  KeyShareSession, Sessions, ok, resource_exhausted, Environment, is_recent, is_over, delete_all,
  count_recent_sessions, delete_expired_sessions,
}
use enchanted_proxy.KeyShare.Service.{check_rate_limit, cleanup_expired_sessions}

abbrev pub recent : ℕ → Text → Sessions → ℕ
recent now user db = length (select (is_recent now user) db)

-- A session that was created in the last hour and has not expired.
abbrev pub is_live : ℕ → Text → Text × KeyShareSession → Bool
is_live now user row = is_recent now user row && not (is_over now row)

abbrev pub has_id : Text → Sessions → Bool
has_id id = any λ row. text_eq row.0 id

pub select-remove :
    (p : Text × KeyShareSession → Bool) (id : Text) (db : Sessions)
    → length (select p (remove id db)) ≤ length (select p db)
select-remove p id [] = omega arith
select-remove p id ((j, s) ∷ db) = ground (arith, select-remove p id db)

-- What a sweep leaves: the rows whose id is none of those.
abbrev pub left_by : Sessions → Sessions → Sessions
left_by rows = select λ row. not (has_id row.0 rows)

left_by-remove :
    (id : Text) (s : KeyShareSession) (rows db : Sessions)
    → left_by rows (remove id db) ≡ left_by ((id, s) ∷ rows) db
left_by-remove id s rows [] = refl
left_by-remove id s rows ((j, t) ∷ db) =
    ground (arith, left_by-remove id s rows db, text_eq_iff id j, text_eq_iff j id)

left_by-nil : (db : Sessions) → left_by [] db ≡ db
left_by-nil [] = refl
left_by-nil (row ∷ db) = rw (left_by-nil db)

delete_all-left_by : (rows db : Sessions) → delete_all rows db ≡ left_by rows db
delete_all-left_by [] db = sym (left_by-nil db)
delete_all-left_by ((id, s) ∷ rows) db =
    delete_all-left_by rows (remove id db) ∙ left_by-remove id s rows db

-- Every row that is over is among the rows that are deleted.
abbrev Swept : ℕ → Sessions → Sessions → Type 0
Swept now rows = All λ row. is_over now row ≡ true → has_id row.0 rows ≡ true

Swept-cons :
    (now : ℕ) (row : Text × KeyShareSession) (rows db : Sessions)
    → Swept now rows db
    → Swept now (row ∷ rows) db
Swept-cons now row rows [] h = tt
Swept-cons now row rows (r ∷ db) h =
    ((λ over. ground (arith, h.0 over)), Swept-cons now row rows db h.1)

Swept-select : (now : ℕ) (db : Sessions) → Swept now (select (is_over now) db) db
Swept-select now [] = tt
Swept-select now (row ∷ db) = elim (Bool-cases (is_over now row)) [
  | inl over ↦
      let cut : row ∷ select (is_over now) db ≡ select (is_over now) (row ∷ db) = rw over in
      subst (λ rows. Swept now rows (row ∷ db)) cut
        (
          (λ _. ground (arith, text_eq_iff row.0 row.0)),
          Swept-cons now row _ db (Swept-select now db),
        )
  | inr there ↦
      let cut : select (is_over now) db ≡ select (is_over now) (row ∷ db) = rw there in
      subst (λ rows. Swept now rows (row ∷ db)) cut ((λ over. cc), Swept-select now db)
]

recent-left_by :
    (now : ℕ) (user : Text) (rows db : Sessions)
    → Swept now rows db
    → recent now user (left_by rows db) ≤ length (select (is_live now user) db)
recent-left_by now user rows [] h = omega arith
recent-left_by now user rows (row ∷ db) h = ground (arith, recent-left_by now user rows db h.1, h.0)

count_recent_sessions-recent :
    (env : Environment) (user : Text) (db : Sessions)
    → (text_eq user [] || env.count_fails) ≡ false
    → count_recent_sessions env user db ≡ some (recent env.now user db)
unfolding count_recent_sessions
count_recent_sessions-recent env user db h = rw h refl

pub check_rate_limit-recent :
    (env : Environment) (user : Text) (db : Sessions)
    → (text_eq user [] || env.count_fails) ≡ false
    → check_rate_limit env user db
      ≡ (if leb 10 (recent env.now user db) then resource_exhausted else ok)
unfolding check_rate_limit
check_rate_limit-recent env user db h =
    rw (count_recent_sessions-recent env user db h, check_rate_limit) refl

cleanup-left_by :
    (env : Environment) (db : Sessions)
    → env.delete_fails ≡ false
    → length (select (is_over env.now) db) ≤ 100
    → (cleanup_expired_sessions env db).0 ≡ left_by (select (is_over env.now) db) db
unfolding cleanup_expired_sessions delete_expired_sessions
cleanup-left_by env db swept few =
    let rows = select (is_over env.now) db in
    ap
      (λ (b : Bool).
        let result : Sessions × Option ℕ =
          if b
          then (db, none)
          else (delete_all (take 100 rows) db, some (length (take 100 rows))) in
        result.0)
      swept
    ∙ ap (λ (r : Sessions). delete_all r db) (take_all 100 rows few)
    ∙ delete_all-left_by rows db

-- A user who created ten sessions or more in the last hour may create no other one; but as soon as the cleanup
-- has deleted those that expired, which they do after five minutes, only the others count.
pub cleanup_lifts_limit :
    (env : Environment) (user : Text) (db : Sessions)
    → (text_eq user [] || env.count_fails) ≡ false
    → env.delete_fails ≡ false
    → length (select (is_over env.now) db) ≤ 100
    → 10 ≤ recent env.now user db
    → length (select (is_live env.now user) db) < 10
    → (check_rate_limit env user db ≡ resource_exhausted)
      × (check_rate_limit env user (cleanup_expired_sessions env db).0 ≡ ok)
cleanup_lifts_limit env user db counted swept few many live =
    let rows = select (is_over env.now) db in
    let fewer = recent-left_by env.now user rows db (Swept-select env.now db) in
    (
      check_rate_limit-recent env user db counted ∙ ground arith,
      ap (check_rate_limit env user) (cleanup-left_by env db swept few)
          ∙ check_rate_limit-recent env user (left_by rows db) counted
          ∙ ground (arith, fewer),
    )
