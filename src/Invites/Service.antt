-- ===== src/Invites/Service.antt =====
-- internal/invitecode/service.go. Which calls of the database fail is a parameter. UseInviteCode reads a code
-- and updates it in two statements without a transaction: they are two functions.
use enchanted_proxy.Prelude.{
  ltb, ◌-◌, ℕ, Bool, true, false, ◌&&◌, not, List, Option, none, some, Text, codes, text_eq,
  if◌then◌else◌, length, drop,
}
use enchanted_proxy.Invites.Table.{
  InviteCode, Invites, get_invite_code_by_code_hash, create_invite_code, update_invite_code_usage,
  reset_invite_code, soft_delete_invite_code, count_invite_codes_by_redeemed_by,
}
use enchanted_proxy.Invites.Generate.{generate_nano_id_with_length}

-- The clock, the hash, ten random bytes, and which statements fail.
pub record Environment : Type 0 where
  pub now : ℕ
  pub hash_code : Text → Text
  pub random : Option (List ℕ)
  pub get_fails : Bool
  pub write_fails : Bool

pub data Result : Type 0 where
  ok : Result
  not_found : Result
  code_expired : Result
  inactive : Result
  already_used : Result
  different_user : Result
  no_randomness : Result
  database_error : Result

unfoldable pub is_expired : ℕ → InviteCode → Bool
is_expired now ic = elim ic.expires_at [ none ↦ false | some t ↦ ltb t now ]

unfoldable pub can_be_used : ℕ → InviteCode → Bool
unfolding is_expired
can_be_used now ic = ic.is_active && not (is_expired now ic) && not ic.is_used

-- `len(code) > 8 && code[len(code)-8:] == "-eternis"`
unfoldable pub is_eternis_code : Text → Bool
is_eternis_code code =
    ltb 8 (length code) && text_eq (drop (length code - 8) code) (codes "-eternis")

-- The checks of a code that was read, in the order of the code.
unfoldable pub check_code : ℕ → Text → InviteCode → Result
check_code now user ic =
    if not (can_be_used now ic) && is_expired now ic
    then code_expired
    else if not (can_be_used now ic) && not ic.is_active
    then inactive
    else if not (can_be_used now ic) && ic.is_used
    then already_used
    else elim ic.bound_email [
      | none ↦ ok
      | some email ↦ if text_eq email user then ok else different_user
    ]

pub data Reading : Type 0 where
  readable : ℕ → Reading
  refused : Result → Reading

abbrev pub reading : ℕ → Result → Reading
reading id ok = readable id
reading id r = refused r

-- The first half of UseInviteCode for a regular code: the number of the code's row, if the user may use it.
unfoldable pub read_code : Environment → Text → Text → Invites → Reading
read_code env code user t =
    if env.get_fails
    then refused database_error
    else elim (get_invite_code_by_code_hash (env.hash_code code) t) [
      | none ↦ refused not_found
      | some (id, ic) ↦ reading id (check_code env.now user ic)
    ]

-- The second half.
unfoldable pub write_code : Environment → Text → ℕ → Invites → Invites × Result
write_code env user id t =
    if env.write_fails
    then (t, database_error)
    else (update_invite_code_usage id user env.now t, ok)

-- A code that ends in "-eternis" is not looked up: a new one is made, and used at once.
unfoldable pub use_eternis_code : Environment → Text → Invites → Invites × Result
use_eternis_code env user t = elim (generate_nano_id_with_length env.random) [
  | none ↦ (t, no_randomness)
  | some code ↦ if env.write_fails then (t, database_error) else (
    create_invite_code
        (record {
          code = code;
          code_hash = env.hash_code code;
          bound_email = none;
          created_by = 0;
          is_used = true;
          redeemed_by = some user;
          redeemed_at = some env.now;
          expires_at = none;
          is_active = true;
          deleted_at = none;
        })
        t,
    ok,
  )
]

unfoldable pub use_regular_code : Environment → Text → Text → Invites → Invites × Result
use_regular_code env code user t = elim (read_code env code user t) [
  | refused r ↦ (t, r)
  | readable id ↦ write_code env user id t
]

unfoldable pub use_invite_code : Environment → Text → Text → Invites → Invites × Result
use_invite_code env code user t =
    if is_eternis_code code then use_eternis_code env user t else use_regular_code env code user t

-- `none` is an error of the database.
unfoldable pub is_user_whitelisted : Environment → Text → Invites → Option Bool
is_user_whitelisted env user t =
    if env.get_fails then none else some (ltb 0 (count_invite_codes_by_redeemed_by user t))

unfoldable pub reset_code : Environment → Text → Invites → Invites × Result
reset_code env code t =
    if env.write_fails then (t, database_error) else (reset_invite_code (env.hash_code code) t, ok)

unfoldable pub delete_invite_code : Environment → ℕ → Invites → Invites × Result
delete_invite_code env id t =
    if env.write_fails then (t, database_error) else (soft_delete_invite_code id env.now t, ok)
