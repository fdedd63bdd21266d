-- ===== src/Payments/Expiry.antt =====
-- `ExpiryWorker.expireInvoices` of internal/zcash/expiry_worker.go, with a client of Firestore. Which updates
-- fail is a parameter, and so is the batch size (100 in the code). The loop is on fuel: `none` is a worker
-- that is still at work. The cancelling of the
-- context, which ends the sweep, is left out.
use enchanted_proxy.Quota.Usage.{day}
use enchanted_proxy.Payments.Store.{
  expired, is_pending, update_to_expired, ZcashInvoice, mirror, Store,
}
use enchanted_proxy.Prelude.{
  ◌||◌, ◌==◌, ltb, select, take, length, ℕ, zero, suc, ◌+◌, Bool, ◌&&◌, List, [], ◌∷◌, Option, none,
  some, Text, if◌then◌else◌,
}

-- `status = 'pending' AND created_at < NOW() - INTERVAL '24 hours'`
abbrev pub is_overdue : ℕ → Text × ZcashInvoice → Bool
is_overdue now (id, i) = is_pending i.status && ltb (i.created_at + day) now

-- GetExpiredPendingInvoices
unfoldable pub get_expired_pending : ℕ → ℕ → Store → List (Text × ZcashInvoice)
get_expired_pending now batch s = take batch (select (is_overdue now) s.invoices)

pub record Failures : Type 0 where
  pub query_fails : Bool
  pub firestore_fails : Text → Bool
  pub update_fails : Text → Bool

unfoldable pub expire_one : Failures → Text → Store → Store
unfolding mirror update_to_expired
expire_one f id s =
    if f.firestore_fails id
    then s
    else if f.update_fails id
    then mirror id expired s
    else update_to_expired id (mirror id expired s)

unfoldable pub expire_batch : Failures → List (Text × ZcashInvoice) → Store → Store
unfolding expire_one
expire_batch f [] s = s
expire_batch f ((id, i) ∷ rest) s = expire_batch f rest (expire_one f id s)

unfoldable pub expire_invoices : ℕ → Failures → ℕ → ℕ → Store → Option Store
unfolding get_expired_pending expire_batch
expire_invoices zero f now batch s = none
expire_invoices (suc fuel) f now batch s =
    let invoices = get_expired_pending now batch s in
    let s' = expire_batch f invoices s in
    let rest = expire_invoices fuel f now batch s' in
    if f.query_fails || length invoices == 0
    then some s
    else if ltb (length invoices) batch
    then some s'
    else rest
