-- ===== src/Payments/Repeats.antt =====
-- What a repeated payment callback does (`HandlePaymentCallback`, internal/zcash/service.go).
use enchanted_proxy.Payments.Settlement.{handle_payment_callback-elim}
use enchanted_proxy.Payments.Lifecycle.{grant_product-invoices, finish-invoices}
use enchanted_proxy.Payments.Callback.{
  process_callback, get_failed, handle_payment_callback, BackendInvoice, grant_product, accepted,
  finish, grant_entitlement, Environment, settle_paid,
}
use mathlib.Core.Option.{some-injective}
use enchanted_proxy.Prelude.{
  lookup-insert_self, subst, insert, lookup, ℕ, true, Option, some, Text, if◌then◌else◌, text_key,
  ◌≡◌, refl, sym, ap, ◌∙◌, inl, inr, arith, Bool-cases, Option-cases,
}
use enchanted_proxy.Payments.Store.{
  update_where, get_product, is_open, is_paid, Status, ZcashInvoice, update_to_paid, Store, paid,
}

-- The invoice with this key is paid.
abbrev pub IsPaid : Text → Store → Type 0
IsPaid id s = (i : ZcashInvoice) × (lookup id s.invoices ≡ some i) × (is_paid i.status ≡ true)

finish-IsPaid :
    (env : Environment) (id : Text) (t : Status) (s : Store)
    → IsPaid id s
    → IsPaid id (finish env id t s).0
finish-IsPaid env id t s (i, e, p) = (i, ap (lookup id) (finish-invoices env id t s) ∙ e, p)

update_to_paid-IsPaid :
    (now : ℕ) (id : Text) (i : ZcashInvoice) (s : Store)
    → lookup id s.invoices ≡ some i
    → is_open i.status ≡ true
    → IsPaid id (update_to_paid now id s)
unfolding update_to_paid
update_to_paid-IsPaid now id i s e o =
    subst (IsPaid id) (sym updated)
      (record i { status = paid; paid_at = some now }, lookup-insert_self id _ s.invoices, refl)
  where
    updated : update_to_paid now id s ≡ record s {
      invoices = insert id (record i { status = paid; paid_at = some now }) s.invoices;
    }
    updated = rw (e, update_where) (rw o)

settle_paid-IsPaid :
    (env : Environment) (id : Text) (i : ZcashInvoice) (s : Store)
    → lookup id s.invoices ≡ some i
    → is_open i.status ≡ true
    → (settle_paid env id i s).1 ≡ accepted
    → IsPaid id (settle_paid env id i s).0
unfolding settle_paid grant_entitlement
settle_paid-IsPaid env id i s e o = elim (Option-cases (get_product i.product_id)) [
  | inl g ↦ rw g (λ h. cc)
  | inr (p, g) ↦ rw g (elim (Bool-cases env.grant_fails) [
    | inl f ↦ rw f (λ h. cc)
    | inr f ↦ rw f (elim (Bool-cases env.update_fails) [
      | inl u ↦ rw u (λ h. cc)
      | inr u ↦
          let s' = grant_product i p s in
          rw u (λ h. finish-IsPaid env id paid (update_to_paid env.now id s') (
            update_to_paid-IsPaid env.now id i s'
              (ap (lookup id) (grant_product-invoices i p s) ∙ e) o))
    ])
  ])
]

-- A callback for a paid invoice changes nothing.
handle_payment_callback-IsPaid :
    (parse : Text → Option Text) (env : Environment) (backend : Option BackendInvoice) (s : Store)
    (id_text id : Text) (status : Status) (amount : ℕ)
    → parse id_text ≡ some id
    → IsPaid id s
    → handle_payment_callback parse env backend s id_text status amount
      ≡ (s, if env.get_fails then get_failed else accepted)
unfolding handle_payment_callback process_callback
handle_payment_callback-IsPaid parse env backend s id_text id status amount q (i, e, p) =
    rw (q, handle_payment_callback)
      (rw (e, handle_payment_callback) (rw (p, process_callback) (ground arith)))

-- The first accepted "paid" callback for an open invoice settles it: after it, every further callback
-- for that invoice, whatever it says, leaves all tables as they are, so that nothing is granted twice.
pub paid_callback_idempotent :
    (parse : Text → Option Text) (env : Environment) (backend : Option BackendInvoice) (s : Store)
    (id_text id : Text) (i : ZcashInvoice) (amount : ℕ) (env' : Environment)
    (backend' : Option BackendInvoice) (status' : Status) (amount' : ℕ)
    → parse id_text ≡ some id
    → lookup id s.invoices ≡ some i
    → is_open i.status ≡ true
    → (handle_payment_callback parse env backend s id_text paid amount).1 ≡ accepted
    → let after = (handle_payment_callback parse env backend s id_text paid amount).0 in
      handle_payment_callback parse env' backend' after id_text status' amount'
      ≡ (after, if env'.get_fails then get_failed else accepted)
paid_callback_idempotent parse env backend s id_text id i amount env' backend' status' amount' q e o
      done =
    handle_payment_callback-IsPaid parse env' backend' _ id_text id status' amount' q (
      handle_payment_callback-elim parse env backend s id_text paid amount
        (λ z. z.1 ≡ accepted → IsPaid id z.0)
        (λ x was h.
          let (id', i', q', e', p) = was h in
          (i', ap (λ k. lookup k s.invoices) (some-injective id id' (sym q ∙ q')) ∙ e', p))
        (λ id' i' b q' e' _ _. settled id' i' (some-injective id id' (sym q ∙ q')) e')
        (λ id' i' _ _ claim. cc) done)
  where
    settled :
        (id' : Text) (i' : ZcashInvoice)
        → id ≡ id'
        → lookup id' s.invoices ≡ some i'
        → (settle_paid env id' i' s).1 ≡ accepted
        → IsPaid id (settle_paid env id' i' s).0
    settled id' i' k e' h =
        subst (λ (j : Text). IsPaid j (settle_paid env id' i' s).0) (sym k)
          (settle_paid-IsPaid env id' i' s e'
            (ap (λ (x : ZcashInvoice). is_open x.status)
                (some-injective i' i (sym e' ∙ ap (λ j. lookup j s.invoices) (sym k) ∙ e))
              ∙ o)
            h)
