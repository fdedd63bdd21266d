-- ===== src/Payments/Callback.antt =====
-- `HandlePaymentCallback`, `grantEntitlement` and the outcome of `verifyInvoiceWithBackend` of
-- internal/zcash/service.go. The parser of UUIDs, the answer of the backend and the failures of the
-- databases are parameters. Amounts are not negative.
use enchanted_proxy.Payments.Store.{
  is_paid, is_actionable, status_eq, pending, product_yearly_pro, Product, processing,
  upsert_with_extension, paid, ZcashInvoice, product_monthly_pro, mirror, Store, Status,
  product_weekly_pro, upsert_with_tier, update_to_paid, get_product, update_to_processing,
}
use enchanted_proxy.Prelude.{
  ltb, lookup, ℕ, Bool, not, ◌&&◌, Option, none, some, Text, codes, text_eq, if◌then◌else◌,
  text_key,
}

-- The clock, and which calls fail.
pub record Environment : Type 0 where
  pub now : ℕ
  pub get_fails : Bool
  pub grant_fails : Bool
  pub update_fails : Bool
  pub firestore_fails : Bool

-- What the backend reports of an invoice.
pub record BackendInvoice : Type 0 where
  pub paid_flag : Bool
  pub processing_flag : Bool
  pub accumulated_zatoshis : ℕ

unfoldable pub derived_status : BackendInvoice → Status
derived_status b = if b.paid_flag then paid else if b.processing_flag then processing else pending

pub data CallbackResult : Type 0 where
  accepted : CallbackResult
  invalid_invoice_id : CallbackResult
  get_failed : CallbackResult
  invoice_not_found : CallbackResult
  invalid_status : CallbackResult
  verification_failed : CallbackResult
  status_mismatch : CallbackResult
  amount_mismatch : CallbackResult
  insufficient_payment : CallbackResult
  grant_failed : CallbackResult
  update_failed : CallbackResult

unfoldable pub duration_days : Text → ℕ
duration_days id =
    if text_eq id product_weekly_pro
    then 7
    else if text_eq id product_monthly_pro
    then 30
    else if text_eq id product_yearly_pro
    then 365
    else 30

-- 2099-12-31 23:59:59 UTC
abbrev pub lifetime_end : ℕ
lifetime_end = 4_102_444_799

unfoldable pub grant_product : ZcashInvoice → Product → Store → Store
unfolding upsert_with_tier upsert_with_extension duration_days
grant_product i p s =
    if p.is_lifetime
    then upsert_with_tier i.user_id
        (record {
          subscription_tier = p.tier;
          subscription_expires_at = some lifetime_end;
          subscription_provider = codes "zcash";
          stripe_customer_id = none;
        })
        s
    else upsert_with_extension i.user_id p.tier i.created_at (duration_days p.id) (codes "zcash")
        none s

-- `none` is an error: an unknown product, or a failed query.
unfoldable pub grant_entitlement : Environment → ZcashInvoice → Store → Option Store
unfolding get_product grant_product
grant_entitlement env i s = elim (get_product i.product_id) [
  | none ↦ none
  | some p ↦ if env.grant_fails then none else some (grant_product i p s)
]

-- The copy in Firestore, whose failure is only logged.
abbrev pub finish : Environment → Text → Status → Store → Store × CallbackResult
finish env id status s = ((if env.firestore_fails then s else mirror id status s), accepted)

unfoldable pub settle_paid : Environment → Text → ZcashInvoice → Store → Store × CallbackResult
unfolding grant_entitlement update_to_paid
settle_paid env id i s = elim (grant_entitlement env i s) [
  | none ↦ (s, grant_failed)
  | some s' ↦
      if env.update_fails
      then (s', update_failed)
      else finish env id paid (update_to_paid env.now id s')
]

unfoldable pub settle_processing : Environment → Text → Store → Store × CallbackResult
unfolding update_to_processing
settle_processing env id s =
    if env.update_fails
    then (s, update_failed)
    else finish env id processing (update_to_processing id s)

-- From the comparison with the backend's report on.
unfoldable pub apply_verified :
    Environment → Store → Text → ZcashInvoice → Status → ℕ → Status → ℕ → Store × CallbackResult
unfolding settle_paid settle_processing
apply_verified env s id i status amount verified verified_amount =
    if not (status_eq status verified)
    then (s, status_mismatch)
    else if is_paid status && ltb verified_amount amount
    then (s, amount_mismatch)
    else if not (is_actionable verified)
    then (s, accepted)
    else if is_paid verified && ltb verified_amount i.amount_zatoshis
    then (s, insufficient_payment)
    else if is_paid verified
    then settle_paid env id i s
    else settle_processing env id s

-- With the invoice at hand; `backend` is `none` if it cannot be asked.
unfoldable pub process_callback :
    Environment
    → Option BackendInvoice
    → Store
    → Text
    → ZcashInvoice
    → Status
    → ℕ
    → Store × CallbackResult
unfolding apply_verified derived_status
process_callback env backend s id i status amount =
    if is_paid i.status
    then (s, accepted)
    else if not (is_actionable status)
    then (s, invalid_status)
    else elim backend [
      | none ↦ (s, verification_failed)
      | some b ↦ apply_verified env s id i status amount (derived_status b) b.accumulated_zatoshis
    ]

unfoldable pub handle_payment_callback :
    (Text → Option Text)
    → Environment
    → Option BackendInvoice
    → Store
    → Text
    → Status
    → ℕ
    → Store × CallbackResult
unfolding process_callback
handle_payment_callback parse env backend s id_text status amount = elim (parse id_text) [
  | none ↦ (s, invalid_invoice_id)
  | some id ↦ if env.get_fails then (s, get_failed) else elim (lookup id s.invoices) [
    | none ↦ (s, invoice_not_found)
    | some i ↦ process_callback env backend s id i status amount
  ]
]
