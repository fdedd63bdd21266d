-- ===== src/Payments/Grants.antt =====
-- Who gets an entitlement from a payment callback (internal/zcash/service.go), and when.
use enchanted_proxy.Quota.Usage.{day}
use enchanted_proxy.Payments.Settlement.{handle_payment_callback-elim, Settles}
use enchanted_proxy.Payments.Callback.{
  duration_days, lifetime_end, handle_payment_callback, finish, BackendInvoice, grant_entitlement,
  settle_processing, settle_paid, Environment, grant_product,
}
use enchanted_proxy.Prelude.{
  text_eq_iff, lookup-insert_self, ◌<◌, ◌≤◌, ◌*◌, ◌+◌, lookup, ℕ, false, Option, none, some, Text,
  if◌then◌else◌, text_key, ◌≡◌, refl, ap, ◌∙◌, ◌⊎◌, inl, inr, arith, Bool-cases, Option-cases,
}
use enchanted_proxy.Payments.Store.{
  get_product, Entitlement, Product, extended_expiry, upsert_with_extension, ZcashInvoice,
  update_to_processing, Status, Store, upsert_with_tier, mirror, update_to_paid, processing, paid,
}

mirror-entitlements :
    (id : Text) (t : Status) (s : Store) → (mirror id t s).entitlements ≡ s.entitlements
unfolding mirror
mirror-entitlements id t s = ground arith

pub update_to_paid-entitlements :
    (now : ℕ) (id : Text) (s : Store) → (update_to_paid now id s).entitlements ≡ s.entitlements
unfolding update_to_paid
update_to_paid-entitlements now id s = ground arith

pub finish-entitlements :
    (env : Environment) (id : Text) (t : Status) (s : Store)
    → (finish env id t s).0.entitlements ≡ s.entitlements
finish-entitlements env id t s = ground (arith, mirror-entitlements id t s)

settle_processing-entitlements :
    (env : Environment) (id : Text) (s : Store)
    → (settle_processing env id s).0.entitlements ≡ s.entitlements
unfolding settle_processing update_to_processing
settle_processing-entitlements env id s =
    ground (arith, finish-entitlements env id processing (update_to_processing id s))

-- What a settlement leaves in the table: what was there, or the grant of the invoice's product.
settle_paid-entitlements :
    (env : Environment) (id : Text) (i : ZcashInvoice) (s : Store)
    → ((settle_paid env id i s).0.entitlements ≡ s.entitlements)
      ⊎ ((p : Product) × (get_product i.product_id ≡ some p)
          × ((settle_paid env id i s).0.entitlements ≡ (grant_product i p s).entitlements))
unfolding settle_paid grant_entitlement
settle_paid-entitlements env id i s = elim (Option-cases (get_product i.product_id)) [
  | inl e ↦ inl (rw e)
  | inr (p, e) ↦ elim (Bool-cases env.grant_fails) [
    | inl f ↦ inl (rw (e, f))
    | inr f ↦ inr (
      p,
      e,
      rw (e, f)
          (elim (Bool-cases env.update_fails) [
            | inl g ↦ rw g
            | inr g ↦ rw g (
                finish-entitlements env id paid (update_to_paid env.now id (grant_product i p s))
                ∙ update_to_paid-entitlements env.now id (grant_product i p s))
          ]),
    )
  ]
]

-- The store of after grants nothing, or the product of an unpaid invoice that the callback settles.
abbrev pub Grants :
    (Text → Option Text) → Option BackendInvoice → Store → Text → Status → Store → Type 0
Grants parse backend s id_text status after =
    (after.entitlements ≡ s.entitlements)
    ⊎ ((id : Text) × (i : ZcashInvoice) × (b : BackendInvoice) × (p : Product) × (parse id_text
          ≡ some id)
        × (lookup id s.invoices ≡ some i)
        × (backend ≡ some b)
        × Settles b i status
        × (get_product i.product_id ≡ some p)
        × (after.entitlements ≡ (grant_product i p s).entitlements))

-- A callback changes no entitlement, or it gives the user of an unpaid invoice the product of that
-- invoice, and nothing to anyone else. In the second case the callback says "paid", and the backend
-- confirms that the invoice is paid with at least its amount.
pub handle_payment_callback-Grants :
    (parse : Text → Option Text) (env : Environment) (backend : Option BackendInvoice) (s : Store)
    (id_text : Text) (status : Status) (amount : ℕ)
    → Grants parse backend s id_text status
        (handle_payment_callback parse env backend s id_text status amount).0
handle_payment_callback-Grants parse env backend s id_text status amount =
    handle_payment_callback-elim parse env backend s id_text status amount
      (λ z. Grants parse backend s id_text status z.0) (λ x _. inl refl)
      (λ id i b q e r settles. elim (settle_paid-entitlements env id i s) [
        | inl same ↦ inl same
        | inr (p, known, granted) ↦ inr (id, i, b, p, q, e, r, settles, known, granted)
      ])
      (λ id i _ _ _. inl (settle_processing-entitlements env id s))

-- The duration of a product in seconds.
abbrev pub duration : Product → ℕ
duration p = duration_days p.id * day

abbrev pub expiry_after : ZcashInvoice → Product → Store → ℕ
expiry_after i p s =
    if p.is_lifetime
    then lifetime_end
    else extended_expiry (lookup i.user_id s.entitlements) p.tier i.created_at (duration_days p.id)

pub grant_product-user :
    (i : ZcashInvoice) (p : Product) (s : Store)
    → (e : Entitlement) × (lookup i.user_id (grant_product i p s).entitlements ≡ some e)
      × (e.subscription_tier ≡ p.tier)
      × (e.subscription_expires_at ≡ some (expiry_after i p s))
unfolding grant_product upsert_with_tier upsert_with_extension
grant_product-user i p s = elim (Bool-cases p.is_lifetime) [
  | inl l ↦ rw l (_, lookup-insert_self i.user_id _ s.entitlements, refl, refl)
  | inr l ↦ rw l (_, lookup-insert_self i.user_id _ s.entitlements, refl, refl)
]

extended_expiry-base :
    (o : Option Entitlement) (tier : Text) (base days : ℕ)
    → base + days * day ≤ extended_expiry o tier base days
unfolding extended_expiry
extended_expiry-base none tier base days = omega arith
extended_expiry-base (some e) tier base days = ground arith

-- After the grant of a product the user has the tier of the product, until the end of 2099 for a
-- lifetime product and for any other at least until its duration after the creation of the invoice
-- is over.
pub grant_product-lasts :
    (i : ZcashInvoice) (p : Product) (s : Store)
    → (e : Entitlement) × (until : ℕ) × (lookup i.user_id (grant_product i p s).entitlements
        ≡ some e)
      × (e.subscription_tier ≡ p.tier)
      × (e.subscription_expires_at ≡ some until)
      × ((if p.is_lifetime then lifetime_end else i.created_at + duration p) ≤ until)
grant_product-lasts i p s =
    let (e, found, tier, expires) = grant_product-user i p s in
    (
      e,
      expiry_after i p s,
      found,
      tier,
      expires,
      ground (
        arith,
        extended_expiry-base (lookup i.user_id s.entitlements) p.tier i.created_at
            (duration_days p.id),
      ),
    )

-- A user who has the tier of a time-limited product at the time of the invoice gets its duration on
-- top of what is left, and loses nothing.
pub grant_product-renews :
    (i : ZcashInvoice) (p : Product) (s : Store) (old : Entitlement) (before : ℕ)
    → p.is_lifetime ≡ false
    → lookup i.user_id s.entitlements ≡ some old
    → old.subscription_tier ≡ p.tier
    → old.subscription_expires_at ≡ some before
    → i.created_at < before
    → (e : Entitlement) × (lookup i.user_id (grant_product i p s).entitlements ≡ some e)
      × (e.subscription_tier ≡ p.tier)
      × (e.subscription_expires_at ≡ some (before + duration p))
unfolding extended_expiry
grant_product-renews i p s old before l found tier until h =
    let (e, new, t, expires) = grant_product-user i p s in
    (e, new, t, expires ∙ ap some (ground (arith, text_eq_iff old.subscription_tier p.tier)))
