-- ===== src/Invites/Table.antt =====
-- The table `invite_codes` (internal/storage/pg/queries/invitecodes.sql): the rows by their serial number, the
-- newest last. Times are in seconds.
use enchanted_proxy.Prelude.{
  ◌+◌, ℕ, Bool, true, false, ◌&&◌, not, List, [], ◌∷◌, Option, none, some, Text, text_eq,
  if◌then◌else◌, nat_key, insert, tally, is_some,
}

pub record InviteCode : Type 0 where
  pub code : Text
  pub code_hash : Text
  pub bound_email : Option Text
  pub created_by : ℕ
  pub is_used : Bool
  pub redeemed_by : Option Text
  pub redeemed_at : Option ℕ
  pub expires_at : Option ℕ
  pub is_active : Bool
  pub deleted_at : Option ℕ

pub record Invites : Type 0 where
  pub next_id : ℕ
  pub rows : List (ℕ × InviteCode)

abbrev pub is_deleted : InviteCode → Bool
is_deleted ic = is_some ic.deleted_at

abbrev pub has_hash : Text → InviteCode → Bool
has_hash hash ic = text_eq ic.code_hash hash && not (is_deleted ic)

abbrev pub find_row : (InviteCode → Bool) → List (ℕ × InviteCode) → Option (ℕ × InviteCode)
find_row p [] = none
find_row p ((id, ic) ∷ rows) = if p ic then some (id, ic) else find_row p rows

-- GetInviteCodeByCodeHash
unfoldable pub get_invite_code_by_code_hash : Text → Invites → Option (ℕ × InviteCode)
get_invite_code_by_code_hash hash t = find_row (has_hash hash) t.rows

-- CreateInviteCode
unfoldable pub create_invite_code : InviteCode → Invites → Invites
create_invite_code ic t = record t { next_id = t.next_id + 1; rows = insert t.next_id ic t.rows }

-- An `UPDATE` of the row with this number.
abbrev pub update_row :
    (InviteCode → InviteCode) → ℕ → List (ℕ × InviteCode) → List (ℕ × InviteCode)
update_row f id [] = []
update_row f id ((j, ic) ∷ rows) =
    (j, (if nat_key.beq j id then f ic else ic)) ∷ update_row f id rows

-- UpdateInviteCodeUsage
abbrev pub used_by : Text → ℕ → InviteCode → InviteCode
used_by user now ic = record ic { is_used = true; redeemed_by = some user; redeemed_at = some now }

unfoldable pub update_invite_code_usage : ℕ → Text → ℕ → Invites → Invites
update_invite_code_usage id user now t = record t { rows = update_row (used_by user now) id t.rows }

-- SoftDeleteInviteCode
unfoldable pub soft_delete_invite_code : ℕ → ℕ → Invites → Invites
soft_delete_invite_code id now t = record t {
  rows = update_row (λ ic. record ic { deleted_at = some now }) id t.rows;
}

-- ResetInviteCode
abbrev pub unused : InviteCode → InviteCode
unused ic = record ic { is_used = false; redeemed_by = none; redeemed_at = none }

abbrev pub update_rows :
    (InviteCode → Bool) → (InviteCode → InviteCode) → List (ℕ × InviteCode) → List (ℕ × InviteCode)
update_rows p f [] = []
update_rows p f ((j, ic) ∷ rows) = (j, (if p ic then f ic else ic)) ∷ update_rows p f rows

unfoldable pub reset_invite_code : Text → Invites → Invites
reset_invite_code hash t = record t { rows = update_rows (has_hash hash) unused t.rows }

-- `redeemed_by = $1 AND deleted_at IS NULL`
abbrev pub redeemed_by_user : Text → ℕ × InviteCode → Bool
redeemed_by_user user (id, ic) = elim ic.redeemed_by [
  | none ↦ false
  | some u ↦ text_eq u user && not (is_deleted ic)
]

-- CountInviteCodesByRedeemedBy
unfoldable pub count_invite_codes_by_redeemed_by : Text → Invites → ℕ
count_invite_codes_by_redeemed_by user t = tally (redeemed_by_user user) t.rows
