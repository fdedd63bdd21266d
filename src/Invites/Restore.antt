-- ===== src/Invites/Restore.antt =====
-- A code that is used and reset (internal/invitecode/service.go).
use enchanted_proxy.Prelude.{
  ℕ, Bool, true, false, List, [], ◌∷◌, Text, if◌then◌else◌, nat_key, All, ◌≡◌, refl, ap, ◌∙◌, inl,
  inr, arith, Bool-cases,
}
use enchanted_proxy.Invites.Table.{
  InviteCode, Invites, has_hash, update_row, used_by, unused, update_rows, update_invite_code_usage,
  reset_invite_code,
}
use enchanted_proxy.Invites.Once.{write_code-done}
use enchanted_proxy.Invites.Service.{Environment, Result, ok, write_code, reset_code}

-- The number stands for the hash, and the rows of the hash are unused.
abbrev pub IsUnused : Text → ℕ → List (ℕ × InviteCode) → Type 0
IsUnused hash id = All λ row.
    (nat_key.beq row.0 id ≡ true → has_hash hash row.1 ≡ true)
    × (has_hash hash row.1 ≡ true → unused row.1 ≡ row.1)

update_rows-update_row :
    (hash user : Text) (now id : ℕ) (rows : List (ℕ × InviteCode))
    → IsUnused hash id rows
    → update_rows (has_hash hash) unused (update_row (used_by user now) id rows) ≡ rows
update_rows-update_row hash user now id [] h = refl
update_rows-update_row hash user now id ((j, r) ∷ rows) h =
    ap
      (λ (v : InviteCode).
        (j, v) ∷ update_rows (has_hash hash) unused (update_row (used_by user now) id rows))
      (row_restored (nat_key.beq j id) refl)
    ∙ ap (λ (rs : List (ℕ × InviteCode)). (j, r) ∷ rs)
        (update_rows-update_row hash user now id rows h.1)
  where
    row_restored :
        (b : Bool)
        → nat_key.beq j id ≡ b
        → (let v = if b then used_by user now r else r in if has_hash hash v then unused v else v)
          ≡ r
    row_restored true here = rw (h.0.0 here) (h.0.1 (h.0.0 here))
    row_restored false there = elim (Bool-cases (has_hash hash r)) [
      | inl owns ↦ rw owns (h.0.1 owns)
      | inr other ↦ rw other refl
    ]

reset-usage :
    (hash user : Text) (now id : ℕ) (t : Invites)
    → IsUnused hash id t.rows
    → reset_invite_code hash (update_invite_code_usage id user now t) ≡ t
unfolding reset_invite_code update_invite_code_usage
reset-usage hash user now id t h =
    ap (λ (rows : List (ℕ × InviteCode)). record t { rows = rows })
      (update_rows-update_row hash user now id t.rows h)

reset_code-done :
    (env : Environment) (code : Text) (t : Invites)
    → env.write_fails ≡ false
    → reset_code env code t ≡ (reset_invite_code (env.hash_code code) t, ok)
unfolding reset_code
reset_code-done env code t up = ground arith

-- Resetting a code undoes its use: the table is the one that it was before the code was used.
pub reset-use :
    (env env' : Environment) (code user : Text) (id : ℕ) (t : Invites)
    → env.write_fails ≡ false
    → env'.write_fails ≡ false
    → IsUnused (env'.hash_code code) id t.rows
    → reset_code env' code (write_code env user id t).0 ≡ (t, ok)
reset-use env env' code user id t up up' h =
    ap (λ (z : Invites × Result). reset_code env' code z.0) (write_code-done env user id t up)
    ∙ reset_code-done env' code (update_invite_code_usage id user env.now t) up'
    ∙ ap (λ (s : Invites). (s, ok)) (reset-usage (env'.hash_code code) user env.now id t h)
