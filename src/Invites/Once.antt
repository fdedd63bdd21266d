-- ===== src/Invites/Once.antt =====
-- What becomes of a code that is used (internal/invitecode/service.go).
use mathlib.Core.Option.{some-injective}
use enchanted_proxy.Prelude.{
  Option, ◌==◌, ◌<◌, ℕ, true, false, List, [], ◌∷◌, some, Text, nat_key, tally, ◌≡◌, ◌≢◌, inl, inr,
  refl, sym, ap, ◌∙◌, subst, arith, Bool-cases, text_eq_iff,
}
use enchanted_proxy.Invites.Table.{
  InviteCode, Invites, has_hash, find_row, update_row, used_by, redeemed_by_user,
  get_invite_code_by_code_hash, update_invite_code_usage, count_invite_codes_by_redeemed_by,
}
use enchanted_proxy.Invites.Service.{
  Environment, Result, Reading, refused, ok, readable, read_code, write_code, use_regular_code,
  is_user_whitelisted,
}
use enchanted_proxy.Invites.Redeem.{
  Leads, usage-Leads, read_code-used, use_regular_code-ok, use_regular_code-refused,
  read_code-refused_ne, use_regular_code-readable,
}

redeemed_by_user-true :
    (user hash : Text) (j : ℕ) (r : InviteCode)
    → r.redeemed_by ≡ some user
    → has_hash hash r ≡ true
    → redeemed_by_user user (j, r) ≡ true
redeemed_by_user-true user hash j r by h = ground (arith, text_eq_iff user user)

counts-Leads :
    (user hash : Text) (id : ℕ) (ic : InviteCode) (rows : List (ℕ × InviteCode))
    → ic.redeemed_by ≡ some user
    → find_row (has_hash hash) rows ≡ some (id, ic)
    → 0 < tally (redeemed_by_user user) rows
counts-Leads user hash id ic [] by h = cc
counts-Leads user hash id ic ((j, r) ∷ rows) by h = elim (Bool-cases (has_hash hash r)) [
  | inl here ↦
      let by_user : r.redeemed_by ≡ some user = ground arith in
      ground (arith, redeemed_by_user-true user hash j r by_user here)
  | inr there ↦ ground (arith, counts-Leads user hash id ic rows by)
]

counts_after :
    (env : Environment) (code user : Text) (now : ℕ) (t : Invites) (id : ℕ) (ic : InviteCode)
    → Leads env code t id ic
    → 0 < count_invite_codes_by_redeemed_by user (update_invite_code_usage id user now t)
unfolding count_invite_codes_by_redeemed_by update_invite_code_usage get_invite_code_by_code_hash
counts_after env code user now t id ic h =
    counts-Leads user (env.hash_code code) id (used_by user now ic) _ refl
      (usage-Leads env code user now t id ic h)

whitelisted_after :
    (env : Environment) (user : Text) (t : Invites)
    → env.get_fails ≡ false
    → 0 < count_invite_codes_by_redeemed_by user t
    → is_user_whitelisted env user t ≡ some true
unfolding is_user_whitelisted
whitelisted_after env user t got h = ground arith

-- A request with a regular code: the server's environment, the code and the user.
pub record Use : Type 0 where
  pub env : Environment
  pub code : Text
  pub user : Text

abbrev pub use_codes : List Use → Invites → Invites
use_codes [] t = t
use_codes (u ∷ us) t = use_codes us (use_regular_code u.env u.code u.user t).0

-- The row that a hash leads to is used.
abbrev IsUsedCode : Text → Invites → Type 0
IsUsedCode hash t =
    (id : ℕ) × (ic : InviteCode) × (get_invite_code_by_code_hash hash t ≡ some (id, ic))
    × (ic.is_used ≡ true)

find_row-used :
    (hash user : Text) (now j id : ℕ) (ic : InviteCode) (rows : List (ℕ × InviteCode))
    → find_row (has_hash hash) rows ≡ some (id, ic)
    → ic.is_used ≡ true
    → (ic' : InviteCode) × (find_row (has_hash hash) (update_row (used_by user now) j rows)
        ≡ some (id, ic'))
      × (ic'.is_used ≡ true)
find_row-used hash user now j id ic [] h used = cc
find_row-used hash user now j id ic ((k, r) ∷ rows) h used = elim (Bool-cases (has_hash hash r)) [
  | inl here ↦
      let q : ◌≡◌ {A = ℕ × InviteCode} (k, r) (id, ic) =
        some-injective (k, r) (id, ic) (rw here at h) in
      let at_id : (v : InviteCode)
          → ◌≡◌ {A = Option (ℕ × InviteCode)} (some (k, v)) (some (id, v)) =
        λ v. ap (λ (z : ℕ × InviteCode). some (z.0, v)) q in
      elim (Bool-cases (k == j)) [
        | inl e ↦ rw e (rw here (used_by user now r, at_id (used_by user now r), refl))
        | inr e ↦ rw e (rw here (r, at_id r, ap (λ (z : ℕ × InviteCode). z.1.is_used) q ∙ used))
      ]
  | inr there ↦
      let rest = find_row-used hash user now j id ic rows (rw there at h) used in
      elim (Bool-cases (k == j)) [ inl e ↦ rw e (rw there rest) | inr e ↦ rw e (rw there rest) ]
]

usage-IsUsedCode :
    (hash user : Text) (now j : ℕ) (t : Invites)
    → IsUsedCode hash t
    → IsUsedCode hash (update_invite_code_usage j user now t)
unfolding get_invite_code_by_code_hash update_invite_code_usage
usage-IsUsedCode hash user now j t (id, ic, h, used) =
    let (ic', h', used') = find_row-used hash user now j id ic t.rows h used in (id, ic', h', used')

use_regular_code-IsUsedCode :
    (hash : Text) (env : Environment) (code user : Text) (t : Invites)
    → IsUsedCode hash t
    → IsUsedCode hash (use_regular_code env code user t).0
unfolding write_code
use_regular_code-IsUsedCode hash env code user t h = by_reading (read_code env code user t) refl
  where
    by_reading :
        (r : Reading)
        → read_code env code user t ≡ r
        → IsUsedCode hash (use_regular_code env code user t).0
    by_reading (refused r) e =
        subst (λ (z : Invites × Result). IsUsedCode hash z.0)
          (sym (use_regular_code-refused env code user t r e)) h
    by_reading (readable id) e =
        subst (λ (z : Invites × Result). IsUsedCode hash z.0)
          (sym (use_regular_code-readable env code user t id e))
          (elim (Bool-cases env.write_fails) [
            | inl fails ↦ rw fails h
            | inr works ↦ rw works (usage-IsUsedCode hash user env.now id t h)
          ])

use_codes-IsUsedCode :
    (hash : Text) (us : List Use) (t : Invites)
    → IsUsedCode hash t
    → IsUsedCode hash (use_codes us t)
use_codes-IsUsedCode hash [] t h = h
use_codes-IsUsedCode hash (u ∷ us) t h =
    use_codes-IsUsedCode hash us (use_regular_code u.env u.code u.user t).0
      (use_regular_code-IsUsedCode hash u.env u.code u.user t h)

-- A used code is refused, and nothing is changed.
used-refused :
    (env : Environment) (code user : Text) (t : Invites)
    → IsUsedCode (env.hash_code code) t
    → ((use_regular_code env code user t).0 ≡ t) × ((use_regular_code env code user t).1 ≢ ok)
used-refused env code user t (id, ic, leads, used) =
    let (r, e) = read_code-used env code user t id ic leads used in
    let result = use_regular_code-refused env code user t r e in
    (
      ap (λ (z : Invites × Result). z.0) result,
      (λ k.
          read_code-refused_ne env code user t r e
            (sym (ap (λ (z : Invites × Result). z.1) result) ∙ k)),
    )

-- A regular code that is accepted puts its user on the whitelist. After any further requests with regular codes,
-- by anyone and each one finished before the next begins, the code is refused to everyone, whenever they try it,
-- and the attempt changes nothing. A reset of the code is not among these requests.
pub code_used_once :
    (env env' : Environment) (code user user' : Text) (us : List Use) (t : Invites)
    → env'.hash_code code ≡ env.hash_code code
    → env'.get_fails ≡ false
    → (use_regular_code env code user t).1 ≡ ok
    → let after = (use_regular_code env code user t).0 in
      let later = use_codes us after in
      (is_user_whitelisted env' user after ≡ some true)
      × ((use_regular_code env' code user' later).0 ≡ later)
      × ((use_regular_code env' code user' later).1 ≢ ok)
code_used_once env env' code user user' us t same_hash got h =
    let (id, ic, leads, usable, e) = use_regular_code-ok env code user t h in
    let after = update_invite_code_usage id user env.now t in
    let used : IsUsedCode (env'.hash_code code) after =
      subst (λ (hash : Text). IsUsedCode hash after) (sym same_hash)
        (id, used_by user env.now ic, usage-Leads env code user env.now t id ic leads, refl) in
    let (same, refused_too) =
      used-refused env' code user' (use_codes us after)
        (use_codes-IsUsedCode (env'.hash_code code) us after used) in
    subst
      (λ (s : Invites).
        (is_user_whitelisted env' user s ≡ some true)
        × ((use_regular_code env' code user' (use_codes us s)).0 ≡ use_codes us s)
        × ((use_regular_code env' code user' (use_codes us s)).1 ≢ ok))
      (sym (ap (λ (z : Invites × Result). z.0) e))
      (
        whitelisted_after env' user after got (counts_after env code user env.now t id ic leads),
        same,
        refused_too,
      )

update_row-again :
    (user user' : Text) (now now' id : ℕ) (rows : List (ℕ × InviteCode))
    → update_row (used_by user' now') id (update_row (used_by user now) id rows)
      ≡ update_row (used_by user' now') id rows
update_row-again user user' now now' id [] = refl
update_row-again user user' now now' id ((j, r) ∷ rows) = elim (Bool-cases (nat_key.beq j id)) [
  | inl here ↦ rw here (rw (update_row-again user user' now now' id rows) refl)
  | inr there ↦ rw there (rw (update_row-again user user' now now' id rows) refl)
]

usage_again :
    (user user' : Text) (now now' id : ℕ) (t : Invites)
    → update_invite_code_usage id user' now' (update_invite_code_usage id user now t)
      ≡ update_invite_code_usage id user' now' t
unfolding update_invite_code_usage
usage_again user user' now now' id t =
    ap (λ (rows : List (ℕ × InviteCode)). record t { rows = rows })
      (update_row-again user user' now now' id t.rows)

pub write_code-done :
    (env : Environment) (user : Text) (id : ℕ) (t : Invites)
    → env.write_fails ≡ false
    → write_code env user id t ≡ (update_invite_code_usage id user env.now t, ok)
unfolding write_code
write_code-done env user id t up = ground arith

-- Two users who have both read a code before either of them writes are both told that they may use it, and
-- the table is as if the one who wrote first had never used it: that user is not on the whitelist by it.
pub readers_race :
    (env env' : Environment) (code user user' : Text) (t : Invites) (id : ℕ)
    → read_code env code user t ≡ readable id
    → read_code env' code user' t ≡ readable id
    → env.write_fails ≡ false
    → env'.write_fails ≡ false
    → let first = write_code env user id t in
      let second = write_code env' user' id first.0 in
      (first.1 ≡ ok) × (second.1 ≡ ok) × (second.0 ≡ (use_regular_code env' code user' t).0)
readers_race env env' code user user' t id e e' up up' =
    let first = write_code-done env user id t up in
    let second = write_code-done env' user' id (update_invite_code_usage id user env.now t) up' in
    let alone =
      use_regular_code-readable env' code user' t id e' ∙ write_code-done env' user' id t up' in
    rw first (rw (second, alone) (refl, refl, usage_again user user' env.now env'.now id t))
