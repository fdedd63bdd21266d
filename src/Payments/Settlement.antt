-- ===== src/Payments/Settlement.antt =====
-- What a payment callback can do (`HandlePaymentCallback`, internal/zcash/service.go).
use enchanted_proxy.Payments.Callback.{
  invoice_not_found, get_failed, verification_failed, invalid_invoice_id, invalid_status,
  handle_payment_callback, process_callback, insufficient_payment, amount_mismatch, status_mismatch,
  settle_processing, settle_paid, accepted, Environment, CallbackResult, BackendInvoice,
  apply_verified, derived_status,
}
use enchanted_proxy.Prelude.{
  lookup, ◌≤◌, ℕ, true, false, ◌&&◌, Option, some, Text, text_key, ◌≡◌, ◌≢◌, refl, ◌∙◌, inl, inr,
  arith, Bool-cases, Option-cases, ltb,
}
use enchanted_proxy.Payments.Store.{
  is_actionable, is_paid, status_eq, ZcashInvoice, Store, Status, pending, processing, paid,
  expired, other,
}

-- The callback claims a payment of an invoice that is not paid yet, and the backend has confirmed
-- one of at least its amount.
abbrev pub Settles : BackendInvoice → ZcashInvoice → Status → Type 0
Settles b i status =
    (is_paid i.status ≡ false)
    × (is_paid status ≡ true)
    × (b.paid_flag ≡ true)
    × (i.amount_zatoshis ≤ b.accumulated_zatoshis)

status_eq-is_actionable :
    (a b : Status) → status_eq a b ≡ true → is_actionable a ≡ true → is_actionable b ≡ true
status_eq-is_actionable processing processing h k = refl
status_eq-is_actionable paid paid h k = refl
status_eq-is_actionable processing b h k = ground arith
status_eq-is_actionable paid b h k = ground arith
status_eq-is_actionable a b h k = cc

status_eq-is_paid : (a b : Status) → status_eq a b ≡ true → is_paid a ≡ is_paid b
status_eq-is_paid paid paid h = refl
status_eq-is_paid pending pending h = refl
status_eq-is_paid processing processing h = refl
status_eq-is_paid expired expired h = refl
status_eq-is_paid (other s) (other t) h = refl
status_eq-is_paid a b h = cc

derived_status-paid : (b : BackendInvoice) → is_paid (derived_status b) ≡ true → b.paid_flag ≡ true
unfolding derived_status
derived_status-paid b h = ground arith

-- A callback rejects, or settles a confirmed payment, or marks the invoice as being paid.
apply_verified-elim :
    (P : Store × CallbackResult → Type 0) (env : Environment) (s : Store) (id : Text)
    (i : ZcashInvoice) (status : Status) (amount : ℕ) (verified : Status) (n : ℕ)
    → is_actionable status ≡ true
    → ((x : CallbackResult) → x ≢ accepted → P (s, x))
    → (is_paid status ≡ true
        → is_paid verified ≡ true
        → i.amount_zatoshis ≤ n
        → P (settle_paid env id i s))
    → (is_paid status ≡ false → P (settle_processing env id s))
    → P (apply_verified env s id i status amount verified n)
unfolding apply_verified
apply_verified-elim P env s id i status amount verified n act reject settle mark =
    elim (Bool-cases (status_eq status verified)) [
      | inr differ ↦ rw differ (reject status_mismatch (λ z. cc))
      | inl same ↦ rw same (elim (Bool-cases (is_paid status && ltb n amount)) [
        | inl more ↦ rw more (reject amount_mismatch (λ z. cc))
        | inr less ↦
            rw (less, status_eq-is_actionable status verified same act)
              (elim (Bool-cases (is_paid verified)) [
                | inr q ↦ rw q (mark (status_eq-is_paid status verified same ∙ q))
                | inl p ↦ rw p (elim (Bool-cases (ltb n i.amount_zatoshis)) [
                  | inl short ↦ rw short (reject insufficient_payment (λ z. cc))
                  | inr enough ↦ rw enough (
                      settle (status_eq-is_paid status verified same ∙ p) p
                        (ground (arith, enough)))
                ])
              ])
      ])
    ]

process_callback-elim :
    (P : Store × CallbackResult → Type 0) (env : Environment) (backend : Option BackendInvoice)
    (s : Store) (id : Text) (i : ZcashInvoice) (status : Status) (amount : ℕ)
    → ((x : CallbackResult) → (x ≡ accepted → is_paid i.status ≡ true) → P (s, x))
    → ((b : BackendInvoice) → backend ≡ some b → Settles b i status → P (settle_paid env id i s))
    → (is_paid i.status ≡ false → is_paid status ≡ false → P (settle_processing env id s))
    → P (process_callback env backend s id i status amount)
unfolding process_callback
process_callback-elim P env backend s id i status amount reject settle mark =
    elim (Bool-cases (is_paid i.status)) [
      | inl done ↦ rw done (reject accepted (λ z. done))
      | inr unpaid ↦ rw unpaid (elim (Bool-cases (is_actionable status)) [
        | inr bad ↦ rw bad (reject invalid_status (λ z. cc))
        | inl act ↦ rw act (elim (Option-cases backend) [
          | inl e ↦ rw e (reject verification_failed (λ z. cc))
          | inr (b, e) ↦ rw e (
              apply_verified-elim P env s id i status amount (derived_status b)
                b.accumulated_zatoshis act (λ x n. reject x (λ z. absurd (n z)))
                (λ claimed p enough. settle b e (unpaid, claimed, derived_status-paid b p, enough))
                (mark unpaid))
        ])
      ])
    ]

module _ (parse : Text → Option Text) (env : Environment) (backend : Option BackendInvoice)
    (s : Store) (id_text : Text) (status : Status) (amount : ℕ) where
  -- All that a callback can come to: it leaves the store as it is, and then it is accepted only for an
  -- invoice that is paid; or it settles a confirmed payment; or it marks an unpaid invoice.
  pub handle_payment_callback-elim :
      (P : Store × CallbackResult → Type 0)
      → ((x : CallbackResult)
          → (x ≡ accepted
              → (id : Text) × (i : ZcashInvoice) × (parse id_text ≡ some id)
                × (lookup id s.invoices ≡ some i)
                × (is_paid i.status ≡ true))
          → P (s, x))
      → ((id : Text) (i : ZcashInvoice) (b : BackendInvoice)
          → parse id_text ≡ some id
          → lookup id s.invoices ≡ some i
          → backend ≡ some b
          → Settles b i status
          → P (settle_paid env id i s))
      → ((id : Text) (i : ZcashInvoice)
          → lookup id s.invoices ≡ some i
          → is_paid i.status ≡ false
          → is_paid status ≡ false
          → P (settle_processing env id s))
      → P (handle_payment_callback parse env backend s id_text status amount)
  unfolding handle_payment_callback
  handle_payment_callback-elim P reject settle mark = elim (Option-cases (parse id_text)) [
    | inl e ↦ rw (e, handle_payment_callback) (reject invalid_invoice_id (λ z. cc))
    | inr (id, e) ↦
        rw (e, handle_payment_callback)
          (elim (Bool-cases env.get_fails) [
            | inl f ↦ rw f (reject get_failed (λ z. cc))
            | inr f ↦ rw f (elim (Option-cases (lookup id s.invoices)) [
              | inl g ↦ rw g (reject invoice_not_found (λ z. cc))
              | inr (i, g) ↦ rw g (
                  process_callback-elim P env backend s id i status amount
                    (λ x done. reject x (λ z. (id, i, e, g, done z)))
                    (λ b r settles. settle id i b e g r settles) (mark id i g))
            ])
          ])
  ]
