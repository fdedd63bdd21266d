-- ===== src/Invites/Tests.antt =====
-- Runs of internal/invitecode on one code.
use enchanted_proxy.Prelude.{
  List, true, false, [], ◌∷◌, none, some, Text, codes, nat_key, ◌≡◌, ◌≢◌, refl,
}
use enchanted_proxy.Invites.Table.{InviteCode, Invites, get_invite_code_by_code_hash}
use enchanted_proxy.Invites.Generate.{letter, generate_nano_id_with_length}
use enchanted_proxy.Invites.Service.{
  Environment, ok, code_expired, readable, read_code, write_code, use_regular_code,
  is_user_whitelisted, check_code, can_be_used,
}
use enchanted_proxy.Invites.Once.{Use, use_codes, code_used_once, readers_race}

abbrev fresh : InviteCode
fresh = record {
  code = codes "ABC";
  code_hash = codes "ABC";
  bound_email = none;
  created_by = 1;
  is_used = false;
  redeemed_by = none;
  redeemed_at = none;
  expires_at = some 100;
  is_active = true;
  deleted_at = none;
}

abbrev table : Invites
table = record { next_id = 2; rows = (1, fresh) ∷ [] }

abbrev env : Environment
env = record {
  now = 50;
  hash_code = λ t. t;
  random = some (0 ∷ 33 ∷ 255 ∷ []);
  get_fails = false;
  write_fails = false;
}

used : (use_regular_code env (codes "ABC") (codes "ann") table).1 ≡ ok
unfolding use_regular_code read_code write_code check_code can_be_used get_invite_code_by_code_hash
used = refl

too_late :
    (use_regular_code (record env { now = 101 }) (codes "ABC") (codes "ann") table).1 ≡ code_expired
unfolding use_regular_code read_code write_code check_code can_be_used get_invite_code_by_code_hash
too_late = refl

made : generate_nano_id_with_length env.random ≡ some (codes "AB9")
unfolding generate_nano_id_with_length letter
made = refl

readable_by : (user : Text) → read_code env (codes "ABC") user table ≡ readable 1
unfolding read_code check_code can_be_used get_invite_code_by_code_hash
readable_by user = refl

abbrev further : List Use
further = record { env = env; code = codes "ABC"; user = codes "cid" } ∷ []

code_used_once_example :
    let after = (use_regular_code env (codes "ABC") (codes "ann") table).0 in
    let later = use_codes further after in
    (is_user_whitelisted env (codes "ann") after ≡ some true)
    × ((use_regular_code env (codes "ABC") (codes "bob") later).0 ≡ later)
    × ((use_regular_code env (codes "ABC") (codes "bob") later).1 ≢ ok)
code_used_once_example =
    code_used_once env env (codes "ABC") (codes "ann") (codes "bob") further table refl refl used

readers_race_example :
    let first = write_code env (codes "ann") 1 table in
    let second = write_code env (codes "bob") 1 first.0 in
    (first.1 ≡ ok)
    × (second.1 ≡ ok)
    × (second.0 ≡ (use_regular_code env (codes "ABC") (codes "bob") table).0)
readers_race_example =
    readers_race env env (codes "ABC") (codes "ann") (codes "bob") table 1
      (readable_by (codes "ann")) (readable_by (codes "bob")) refl refl
