-- ===== src/Payments/Doubles.antt =====
-- Where a repeated payment callback grants again (`HandlePaymentCallback`, internal/zcash/service.go).
use enchanted_proxy.Payments.Grants.{
  grant_product-renews, duration, update_to_paid-entitlements, finish-entitlements,
}
use enchanted_proxy.Payments.Lifecycle.{finish-invoices, grant_product-invoices}
use enchanted_proxy.Payments.Callback.{
  CallbackResult, derived_status, apply_verified, process_callback, grant_product,
  handle_payment_callback, grant_entitlement, BackendInvoice, settle_paid, Environment,
}
use enchanted_proxy.Prelude.{
  ◌<◌, ◌≤◌, lookup, ℕ, zero, suc, ◌*◌, ◌+◌, true, false, Option, some, Text, text_key, ◌≡◌, ap, ◌∙◌,
  ◌⊎◌, inl, inr, arith, Bool-cases, Option-cases, ltb,
}
use enchanted_proxy.Payments.Store.{
  Status, get_product, update_where, Product, is_open, is_paid, ZcashInvoice, Entitlement,
  update_to_paid, Store, paid,
}

-- The subscription of a user in a store ends at this time.
abbrev pub EndsAt : Text → Text → ℕ → Store → Type 0
EndsAt user tier until s =
    (e : Entitlement) × (lookup user s.entitlements ≡ some e)
    × (e.subscription_tier ≡ tier)
    × (e.subscription_expires_at ≡ some until)

settle_paid-granted :
    (env : Environment) (id : Text) (i : ZcashInvoice) (s : Store) (p : Product)
    → get_product i.product_id ≡ some p
    → env.grant_fails ≡ false
    → (settle_paid env id i s).0.entitlements ≡ (grant_product i p s).entitlements
unfolding settle_paid grant_entitlement
settle_paid-granted env id i s p e f =
    rw (e, settle_paid)
      (rw f (elim (Bool-cases env.update_fails) [
        | inl g ↦ rw g
        | inr g ↦ rw g (
            finish-entitlements env id paid (update_to_paid env.now id (grant_product i p s))
            ∙ update_to_paid-entitlements env.now id (grant_product i p s))
      ]))

-- The update of the status has no effect: it fails, or the invoice is neither pending nor processing.
abbrev pub Sticks : Environment → ZcashInvoice → Type 0
Sticks env i = (env.update_fails ≡ true) ⊎ (is_open i.status ≡ false)

update_to_paid-closed :
    (now : ℕ) (id : Text) (i : ZcashInvoice) (s : Store)
    → lookup id s.invoices ≡ some i
    → is_open i.status ≡ false
    → update_to_paid now id s ≡ s
unfolding update_to_paid
update_to_paid-closed now id i s e o = rw (e, update_where) (rw o)

settle_paid-Sticks :
    (env : Environment) (id : Text) (i : ZcashInvoice) (s : Store)
    → Sticks env i
    → lookup id s.invoices ≡ some i
    → lookup id (settle_paid env id i s).0.invoices ≡ some i
unfolding settle_paid grant_entitlement
settle_paid-Sticks env id i s sticks e = elim (Option-cases (get_product i.product_id)) [
  | inl g ↦ rw g e
  | inr (p, g) ↦
      let kept = ap (lookup id) (grant_product-invoices i p s) ∙ e in
      rw g (elim (Bool-cases env.grant_fails) [
        | inl f ↦ rw f e
        | inr f ↦ rw f (elim (Bool-cases env.update_fails) [
          | inl u ↦ rw u kept
          | inr u ↦ rw u (elim sticks [
            | inl u' ↦ ground arith
            | inr o ↦
                ap (lookup id)
                  (finish-invoices env id paid (update_to_paid env.now id (grant_product i p s)))
                ∙ ap (λ (z : Store). lookup id z.invoices)
                    (update_to_paid-closed env.now id i (grant_product i p s) kept o)
                ∙ kept
          ])
        ])
      ])
]

-- The store after `n` equal callbacks.
unfoldable pub after_callbacks :
    ℕ
    → (Text → Option Text)
    → Environment
    → Option BackendInvoice
    → Text
    → Status
    → ℕ
    → Store
    → Store
after_callbacks zero parse env backend id_text status amount s = s
after_callbacks (suc n) parse env backend id_text status amount s =
    after_callbacks n parse env backend id_text status amount
      (handle_payment_callback parse env backend s id_text status amount).0

module _ (parse : Text → Option Text) (env : Environment) (b : BackendInvoice) (id_text id : Text)
    (i : ZcashInvoice) (amount : ℕ) (q : parse id_text ≡ some id) (found : env.get_fails ≡ false)
    (unpaid : is_paid i.status ≡ false) (confirmed : b.paid_flag ≡ true)
    (honest : amount ≤ b.accumulated_zatoshis)
    (enough : i.amount_zatoshis ≤ b.accumulated_zatoshis) where
  -- A confirmed payment of an unpaid invoice is settled.
  handle_payment_callback-settles :
      (s : Store)
      → lookup id s.invoices ≡ some i
      → handle_payment_callback parse env (some b) s id_text paid amount ≡ settle_paid env id i s
  unfolding handle_payment_callback process_callback apply_verified derived_status
  handle_payment_callback-settles s e =
      rw (q, handle_payment_callback)
        (rw found (
          rw (e, handle_payment_callback)
            (rw (unpaid, process_callback)
              (rw (confirmed, derived_status)
                (rw (not_less amount honest, not_less i.amount_zatoshis enough))))))
    where
      not_less : (n : ℕ) → n ≤ b.accumulated_zatoshis → ltb b.accumulated_zatoshis n ≡ false
      not_less n h = ground arith

  -- As long as the status of the invoice does not become "paid", because its update fails or because the
  -- invoice had expired, every confirmed callback grants again: after `n` callbacks a running
  -- subscription is longer by `n` times the duration of the product.
  pub confirmed_callbacks_extend :
      (p : Product) (n until : ℕ) (s : Store)
      → get_product i.product_id ≡ some p
      → p.is_lifetime ≡ false
      → env.grant_fails ≡ false
      → Sticks env i
      → lookup id s.invoices ≡ some i
      → EndsAt i.user_id p.tier until s
      → i.created_at < until
      → EndsAt i.user_id p.tier
          (until + n * duration p)
          (after_callbacks n parse env (some b) id_text paid amount s)
  unfolding after_callbacks
  confirmed_callbacks_extend p zero until s g l f sticks e (old, a, t, x) h =
      (old, a, t, x ∙ ap some (omega arith))
  confirmed_callbacks_extend p (suc n) until s g l f sticks e (old, a, t, x) h =
      let s' = (handle_payment_callback parse env (some b) s id_text paid amount).0 in
      let step = ap (λ (z : Store × CallbackResult). z.0) (handle_payment_callback-settles s e) in
      let (new, a', t', x') = grant_product-renews i p s old until l a t x h in
      let (last, a'', t'', x'') =
        confirmed_callbacks_extend p n (until + duration p) s' g l f sticks
          (ap (λ (z : Store). lookup id z.invoices) step ∙ settle_paid-Sticks env id i s sticks e)
          (
            new,
            ap (λ (z : Store). lookup i.user_id z.entitlements) step
                ∙ ap (lookup i.user_id) (settle_paid-granted env id i s p g f)
                ∙ a',
            t',
            x',
          )
          (omega arith) in
      (last, a'', t'', x'' ∙ ap some (omega arith))
