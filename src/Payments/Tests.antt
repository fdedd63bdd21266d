-- ===== src/Payments/Tests.antt =====
-- Runs of the payment callback on a store of one user.
use enchanted_proxy.Payments.Overdue.{overdue}
use enchanted_proxy.Payments.Sweep.{expire_invoices-Swept, no_failures, Swept}
use enchanted_proxy.Payments.Expiry.{expire_invoices}
use enchanted_proxy.Payments.Lifecycle.{handle_payment_callback-Follows, Follows}
use enchanted_proxy.Payments.Repeats.{paid_callback_idempotent}
use enchanted_proxy.Payments.Doubles.{confirmed_callbacks_extend, after_callbacks, EndsAt}
use enchanted_proxy.Payments.Grants.{duration, handle_payment_callback-Grants, Grants}
use enchanted_proxy.Payments.Callback.{
  duration_days, grant_entitlement, CallbackResult, insufficient_payment, status_mismatch,
  settle_paid, derived_status, apply_verified, grant_product, process_callback, accepted,
  handle_payment_callback, BackendInvoice, Environment,
}
use enchanted_proxy.Prelude.{
  ap, ◌*◌, ◌+◌, lookup, true, false, [], ◌∷◌, ◌≡◌, refl, inr, Option, none, some, Text, codes,
  arith, text_key,
}
use enchanted_proxy.Payments.Store.{
  mirror, update_to_paid, extended_expiry, upsert_with_extension, product_monthly_pro, ZcashInvoice,
  get_product, Product, Store, Entitlement, pending, processing, paid, expired,
}

abbrev month : ZcashInvoice
month = record {
  user_id = codes "u";
  product_id = product_monthly_pro;
  amount_zatoshis = 500;
  status = pending;
  created_at = 1_000;
  paid_at = none;
}

abbrev lapsed : ZcashInvoice
lapsed = record month { status = expired }

abbrev running : Entitlement
running = record {
  subscription_tier = codes "pro";
  subscription_expires_at = some 5_000;
  subscription_provider = codes "stripe";
  stripe_customer_id = some (codes "c");
}

abbrev before : Store
before = record {
  invoices = (codes "i", month) ∷ [];
  entitlements = (codes "u", running) ∷ [];
  firestore = (codes "i", pending) ∷ [];
}

abbrev late : Store
late = record before { invoices = (codes "i", lapsed) ∷ [] }

abbrev after : Store
after = record {
  invoices = (codes "i", record month { status = paid; paid_at = some 2_000 }) ∷ [];
  entitlements =
      (
        codes "u",
        record running {
          subscription_expires_at = some 2_597_000;
          subscription_provider = codes "zcash";
        },
      )
      ∷ [];
  firestore = (codes "i", paid) ∷ [];
}

abbrev calm : Environment
calm = record {
  now = 2_000;
  get_fails = false;
  grant_fails = false;
  update_fails = false;
  firestore_fails = false;
}

abbrev report : BackendInvoice
report = record { paid_flag = true; processing_flag = false; accumulated_zatoshis = 500 }

abbrev parse : Text → Option Text
parse t = some t

abbrev monthly : Product
monthly = record { id = product_monthly_pro; tier = codes "pro"; is_lifetime = false }

callback-paid :
    handle_payment_callback parse calm (some report) before (codes "i") paid 500 ≡ (after, accepted)
unfolding handle_payment_callback process_callback apply_verified derived_status settle_paid
    grant_entitlement get_product grant_product upsert_with_extension extended_expiry duration_days
    update_to_paid mirror
callback-paid = refl

callback-short :
    handle_payment_callback parse calm
      (some (record report { accumulated_zatoshis = 499 }))
      before
      (codes "i")
      paid
      499
    ≡ (before, insufficient_payment)
unfolding handle_payment_callback process_callback apply_verified derived_status
callback-short = refl

callback-spoofed :
    handle_payment_callback parse calm
      (some (record report { paid_flag = false }))
      before
      (codes "i")
      paid
      500
    ≡ (before, status_mismatch)
unfolding handle_payment_callback process_callback apply_verified derived_status
callback-spoofed = refl

handle_payment_callback-Grants_example :
    Grants parse
      (some report)
      before
      (codes "i")
      paid
      (handle_payment_callback parse calm (some report) before (codes "i") paid 500).0
handle_payment_callback-Grants_example =
    handle_payment_callback-Grants parse calm (some report) before (codes "i") paid 500

handle_payment_callback-Follows_example :
    (j : ZcashInvoice) × (lookup
        (codes "i")
        (handle_payment_callback parse calm (some report) before (codes "i") paid 500).0.invoices
      ≡ some j)
    × Follows month j
handle_payment_callback-Follows_example =
    handle_payment_callback-Follows parse calm (some report) before (codes "i") paid 500 (codes "i")
      month refl

paid_callback_idempotent_example :
    let later = (handle_payment_callback parse calm (some report) before (codes "i") paid 500).0 in
    handle_payment_callback parse calm none later (codes "i") processing 7 ≡ (later, accepted)
paid_callback_idempotent_example =
    paid_callback_idempotent parse calm (some report) before (codes "i") (codes "i") month 500 calm
      none processing 7 refl refl refl (ap (λ (z : Store × CallbackResult). z.1) callback-paid)

monthly-found : get_product month.product_id ≡ some monthly
unfolding get_product
monthly-found = refl

confirmed_callbacks_extend_example :
    EndsAt
      (codes "u")
      (codes "pro")
      (5_000 + 3 * duration monthly)
      (after_callbacks 3 parse calm (some report) (codes "i") paid 500 late)
confirmed_callbacks_extend_example =
    confirmed_callbacks_extend parse calm report (codes "i") (codes "i") lapsed 500 refl refl refl
      refl (omega arith) (omega arith) monthly 3 5_000 late monthly-found refl refl (inr refl) refl
      (running, refl, refl, refl) (omega arith)

abbrev queue : Store
queue = record before {
  invoices =
      (codes "i", month)
      ∷ (codes "j", record month { created_at = 90_000 })
      ∷ (codes "k", month)
      ∷ [];
}

queue_overdue : overdue 100_000 queue.invoices ≡ 2
unfolding overdue
queue_overdue = refl

expire_invoices-Swept_example : Swept 100_000 queue (expire_invoices 3 no_failures 100_000 1 queue)
expire_invoices-Swept_example =
    expire_invoices-Swept 3 100_000 1 queue (refl, (refl, (refl, tt))) (omega arith)
      (omega (arith, queue_overdue))
