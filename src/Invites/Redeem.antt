-- ===== src/Invites/Redeem.antt =====
-- Which codes are accepted (internal/invitecode/service.go).
use enchanted_proxy.Prelude.{
  ℕ, Bool, true, false, List, [], ◌∷◌, none, some, Text, text_eq, nat_key, ◌≡◌, ◌≢◌, ◌⊎◌, inl, inr,
  refl, sym, ap, ◌∙◌, arith, Bool-cases, Option-cases, text_eq_iff,
}
use enchanted_proxy.Invites.Table.{
  InviteCode, Invites, has_hash, find_row, update_row, used_by, get_invite_code_by_code_hash,
  update_invite_code_usage,
}
use enchanted_proxy.Invites.Service.{
  Environment, Result, ok, not_found, code_expired, inactive, already_used, different_user,
  no_randomness, database_error, is_expired, can_be_used, check_code, Reading, readable, refused,
  reading, read_code, write_code, use_regular_code,
}

-- A code that this user may use now.
pub record IsUsable (now : ℕ) (user : Text) (ic : InviteCode) : Type 0 where
  pub active : ic.is_active ≡ true
  pub in_time : is_expired now ic ≡ false
  pub free : ic.is_used ≡ false
  pub for_user : (ic.bound_email ≡ none) ⊎ (ic.bound_email ≡ some user)

check_code-ok :
    (now : ℕ) (user : Text) (ic : InviteCode) → check_code now user ic ≡ ok → IsUsable now user ic
unfolding check_code can_be_used
check_code-ok now user ic h = record {
  active = ground arith;
  in_time = ground arith;
  free = ground arith;
  for_user = elim (Option-cases ic.bound_email) [
    | inl e ↦ inl e
    | inr (email, e) ↦ elim (Bool-cases (text_eq email user)) [
      | inl same ↦ inr (e ∙ ap (λ (t : Text). some t) ((text_eq_iff email user).0 same))
      | inr other ↦ absurd (ground arith)
    ]
  ];
}

-- A code that is used is refused to everyone.
check_code-used :
    (now : ℕ) (user : Text) (ic : InviteCode) → ic.is_used ≡ true → check_code now user ic ≢ ok
unfolding check_code can_be_used
check_code-used now user ic used h = ground arith

reading-readable : (id j : ℕ) (r : Result) → reading id r ≡ readable j → (r ≡ ok) × (id ≡ j)
reading-readable id j ok h = (refl, ground arith)
reading-readable id j not_found h = cc
reading-readable id j code_expired h = cc
reading-readable id j inactive h = cc
reading-readable id j already_used h = cc
reading-readable id j different_user h = cc
reading-readable id j no_randomness h = cc
reading-readable id j database_error h = cc

-- The row that a code leads to.
abbrev pub Leads : Environment → Text → Invites → ℕ → InviteCode → Type 0
Leads env code t id ic = get_invite_code_by_code_hash (env.hash_code code) t ≡ some (id, ic)

pub read_code-readable :
    (env : Environment) (code user : Text) (t : Invites) (id : ℕ)
    → read_code env code user t ≡ readable id
    → (ic : InviteCode) × Leads env code t id ic × IsUsable env.now user ic
unfolding read_code
read_code-readable env code user t id h = elim (Bool-cases env.get_fails) [
  | inl a ↦ absurd (ground arith)
  | inr a ↦ elim (Option-cases (get_invite_code_by_code_hash (env.hash_code code) t)) [
    | inl e ↦ absurd (ground arith)
    | inr ((j, ic), e) ↦
        let r : reading j (check_code env.now user ic) ≡ readable id = ground arith in
        let k = reading-readable j id (check_code env.now user ic) r in
        (ic, e ∙ ap (λ (n : ℕ). some (n, ic)) k.1, check_code-ok env.now user ic k.0)
  ]
]

find_row-update_row :
    (p : InviteCode → Bool) (f : InviteCode → InviteCode) (id : ℕ) (ic : InviteCode)
    (rows : List (ℕ × InviteCode))
    → ((ic : InviteCode) → p (f ic) ≡ p ic)
    → find_row p rows ≡ some (id, ic)
    → find_row p (update_row f id rows) ≡ some (id, f ic)
find_row-update_row p f id ic [] keeps h = cc
find_row-update_row p f id ic ((j, r) ∷ rows) keeps h = elim (Bool-cases (p r)) [
  | inl here ↦ ground (arith, keeps r)
  | inr there ↦ ground (arith, keeps r, find_row-update_row p f id ic rows keeps)
]

-- The row with its user.
pub usage-Leads :
    (env : Environment) (code user : Text) (now : ℕ) (t : Invites) (id : ℕ) (ic : InviteCode)
    → Leads env code t id ic
    → Leads env code (update_invite_code_usage id user now t) id (used_by user now ic)
unfolding get_invite_code_by_code_hash update_invite_code_usage
usage-Leads env code user now t id ic h =
    find_row-update_row (has_hash (env.hash_code code)) (used_by user now) id ic t.rows (λ _. refl)
      h

reading-refused : (id : ℕ) (r : Result) → r ≢ ok → reading id r ≡ refused r
reading-refused id ok h = absurd (h refl)
reading-refused id not_found h = refl
reading-refused id code_expired h = refl
reading-refused id inactive h = refl
reading-refused id already_used h = refl
reading-refused id different_user h = refl
reading-refused id no_randomness h = refl
reading-refused id database_error h = refl

pub read_code-used :
    (env : Environment) (code user : Text) (t : Invites) (id : ℕ) (ic : InviteCode)
    → Leads env code t id ic
    → ic.is_used ≡ true
    → (r : Result) × (read_code env code user t ≡ refused r)
unfolding read_code
read_code-used env code user t id ic e used = elim (Bool-cases env.get_fails) [
  | inl a ↦ (database_error, ground arith)
  | inr a ↦ (
    check_code env.now user ic,
    ground (
      arith,
      reading-refused id (check_code env.now user ic) (check_code-used env.now user ic used),
    ),
  )
]

reading-refused_ne : (id : ℕ) (c r : Result) → reading id c ≡ refused r → r ≢ ok
reading-refused_ne id ok r h k = ground arith
reading-refused_ne id not_found r h k = ground arith
reading-refused_ne id code_expired r h k = ground arith
reading-refused_ne id inactive r h k = ground arith
reading-refused_ne id already_used r h k = ground arith
reading-refused_ne id different_user r h k = ground arith
reading-refused_ne id no_randomness r h k = ground arith
reading-refused_ne id database_error r h k = ground arith

-- A refused reading is no success.
pub read_code-refused_ne :
    (env : Environment) (code user : Text) (t : Invites) (r : Result)
    → read_code env code user t ≡ refused r
    → r ≢ ok
unfolding read_code
read_code-refused_ne env code user t r h k = elim (Bool-cases env.get_fails) [
  | inl a ↦ ground arith
  | inr a ↦ elim (Option-cases (get_invite_code_by_code_hash (env.hash_code code) t)) [
    | inl e ↦ ground arith
    | inr ((j, ic), e) ↦
        let same : reading j (check_code env.now user ic) ≡ refused r = ground arith in
        reading-refused_ne j (check_code env.now user ic) r same k
  ]
]

write_code-ok :
    (env : Environment) (user : Text) (id : ℕ) (t : Invites)
    → (write_code env user id t).1 ≡ ok
    → write_code env user id t ≡ (update_invite_code_usage id user env.now t, ok)
unfolding write_code
write_code-ok env user id t h = ground arith

pub use_regular_code-refused :
    (env : Environment) (code user : Text) (t : Invites) (r : Result)
    → read_code env code user t ≡ refused r
    → use_regular_code env code user t ≡ (t, r)
unfolding use_regular_code
use_regular_code-refused env code user t r e = rw (e, use_regular_code) refl

pub use_regular_code-readable :
    (env : Environment) (code user : Text) (t : Invites) (id : ℕ)
    → read_code env code user t ≡ readable id
    → use_regular_code env code user t ≡ write_code env user id t
unfolding use_regular_code
use_regular_code-readable env code user t id e = rw (e, use_regular_code) refl

pub use_regular_code-ok :
    (env : Environment) (code user : Text) (t : Invites)
    → (use_regular_code env code user t).1 ≡ ok
    → (id : ℕ) × (ic : InviteCode) × Leads env code t id ic
      × IsUsable env.now user ic
      × (use_regular_code env code user t ≡ (update_invite_code_usage id user env.now t, ok))
use_regular_code-ok env code user t h = by_reading (read_code env code user t) refl
  where
    by_reading :
        (r : Reading)
        → read_code env code user t ≡ r
        → (id : ℕ) × (ic : InviteCode) × Leads env code t id ic
          × IsUsable env.now user ic
          × (use_regular_code env code user t ≡ (update_invite_code_usage id user env.now t, ok))
    by_reading (refused r) e = absurd (
        read_code-refused_ne env code user t r e (
          sym (ap (λ (z : Invites × Result). z.1) (use_regular_code-refused env code user t r e))
          ∙ h))
    by_reading (readable id) e =
        let (ic, leads, usable) = read_code-readable env code user t id e in
        let written = use_regular_code-readable env code user t id e in
        (
          id,
          ic,
          leads,
          usable,
          written
              ∙ write_code-ok env user id t (sym (ap (λ (z : Invites × Result). z.1) written) ∙ h),
        )
