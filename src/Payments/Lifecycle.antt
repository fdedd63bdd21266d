-- ===== src/Payments/Lifecycle.antt =====
-- The states of an invoice under payment callbacks (internal/zcash/service.go), and what repeated
-- callbacks do.
use enchanted_proxy.Payments.Settlement.{handle_payment_callback-elim}
use enchanted_proxy.Payments.Callback.{
  handle_payment_callback, grant_entitlement, BackendInvoice, settle_paid, settle_processing,
  finish, Environment, grant_product,
}
use mathlib.Core.Option.{some-injective}
use enchanted_proxy.Prelude.{
  text_eq_iff, subst, lookup-insert, insert, lookup, ℕ, Bool, true, List, Option, some, Text,
  text_eq, text_key, ◌≡◌, refl, ap, ◌∙◌, inl, inr, arith, Bool-cases, Option-cases,
}
use enchanted_proxy.Payments.Store.{
  get_product, update_where, Product, upsert_with_extension, is_open, Store, is_pending,
  upsert_with_tier, update_to_paid, update_to_processing, Status, mirror, ZcashInvoice, pending,
  processing, paid,
}

-- The changes of an invoice's state that callbacks make.
pub data Advances : Status → Status → Type 0 where
  same : (s : Status) → Advances s s
  detected : Advances pending processing
  confirmed : Advances pending paid
  completed : Advances processing paid

-- The invoice is the same one, in its state or a later one.
pub record Follows (i j : ZcashInvoice) : Type 0 where
  pub user : j.user_id ≡ i.user_id
  pub product : j.product_id ≡ i.product_id
  pub amount : j.amount_zatoshis ≡ i.amount_zatoshis
  pub created : j.created_at ≡ i.created_at
  pub advances : Advances i.status j.status

pub Follows-self : (i : ZcashInvoice) → Follows i i
Follows-self i = record {
  user = refl;
  product = refl;
  amount = refl;
  created = refl;
  advances = same i.status;
}

-- Every invoice of a store is in a later one, and follows its older version.
abbrev pub AllFollow : Text → ZcashInvoice → Store → Type 0
AllFollow k i after = (j : ZcashInvoice) × (lookup k after.invoices ≡ some j) × Follows i j

-- An update of one row by a change that is allowed keeps all rows.
pub insert-AllFollow :
    (id k : Text) (row new i : ZcashInvoice) (m : List (Text × ZcashInvoice))
    → lookup id m ≡ some row
    → Follows row new
    → lookup k m ≡ some i
    → (j : ZcashInvoice) × (lookup k (insert id new m) ≡ some j) × Follows i j
insert-AllFollow id k row new i m e f h = elim (Bool-cases (text_eq id k)) [
  | inl same_key ↦ (
    new,
    ground (arith, lookup-insert id k new m),
    subst (λ (x : ZcashInvoice). Follows x new)
        (some-injective row i (ground (arith, text_eq_iff id k))) f,
  )
  | inr differ ↦ (i, ground (arith, lookup-insert id k new m), Follows-self i)
]

pub mirror-invoices : (id : Text) (t : Status) (s : Store) → (mirror id t s).invoices ≡ s.invoices
unfolding mirror
mirror-invoices id t s = ground arith

pub finish-invoices :
    (env : Environment) (id : Text) (t : Status) (s : Store)
    → (finish env id t s).0.invoices ≡ s.invoices
finish-invoices env id t s = ground (arith, mirror-invoices id t s)

pub grant_product-invoices :
    (i : ZcashInvoice) (p : Product) (s : Store) → (grant_product i p s).invoices ≡ s.invoices
unfolding grant_product upsert_with_tier upsert_with_extension
grant_product-invoices i p s = ground arith

paid-Follows :
    (now : ℕ) (i : ZcashInvoice)
    → is_open i.status ≡ true
    → Follows i (record i { status = paid; paid_at = some now })
paid-Follows now i h = record {
  user = refl;
  product = refl;
  amount = refl;
  created = refl;
  advances = go i.status h;
}
  where
    go : (t : Status) → is_open t ≡ true → Advances t paid
    go pending h = confirmed
    go processing h = completed
    go t h = cc

processing-Follows :
    (i : ZcashInvoice) → is_pending i.status ≡ true → Follows i (record i { status = processing })
processing-Follows i h = record {
  user = refl;
  product = refl;
  amount = refl;
  created = refl;
  advances = go i.status h;
}
  where
    go : (t : Status) → is_pending t ≡ true → Advances t processing
    go pending h = detected
    go t h = cc

update_where-AllFollow :
    (test : ZcashInvoice → Bool) (change : ZcashInvoice → ZcashInvoice) (id k : Text)
    (i : ZcashInvoice) (s : Store)
    → ((row : ZcashInvoice) → test row ≡ true → Follows row (change row))
    → lookup k s.invoices ≡ some i
    → AllFollow k i (update_where test change id s)
update_where-AllFollow test change id k i s f h = elim (Option-cases (lookup id s.invoices)) [
  | inl e ↦ rw (e, update_where) (i, h, Follows-self i)
  | inr (row, e) ↦
      rw (e, update_where)
        (elim (Bool-cases (test row)) [
          | inl o ↦ rw o (insert-AllFollow id k row (change row) i s.invoices e (f row o) h)
          | inr o ↦ rw o (i, h, Follows-self i)
        ])
]

settle_paid-AllFollow :
    (env : Environment) (id k : Text) (row i : ZcashInvoice) (s : Store)
    → lookup k s.invoices ≡ some i
    → AllFollow k i (settle_paid env id row s).0
unfolding settle_paid grant_entitlement update_to_paid
settle_paid-AllFollow env id k row i s h = elim (Option-cases (get_product row.product_id)) [
  | inl e ↦ rw e (i, h, Follows-self i)
  | inr (p, e) ↦
      let granted = ap (lookup k) (grant_product-invoices row p s) ∙ h in
      rw e (elim (Bool-cases env.grant_fails) [
        | inl f ↦ rw f (i, h, Follows-self i)
        | inr f ↦ rw f (elim (Bool-cases env.update_fails) [
          | inl g ↦ rw g (i, granted, Follows-self i)
          | inr g ↦
              let s' = grant_product row p s in
              let (j, e', follows) =
                update_where-AllFollow (λ i. is_open i.status)
                  (λ i. record i { status = paid; paid_at = some env.now }) id k i s'
                  (λ r o. paid-Follows env.now r o) granted in
              rw g (
                j,
                ap (lookup k) (finish-invoices env id paid (update_to_paid env.now id s')) ∙ e',
                follows,
              )
        ])
      ])
]

settle_processing-AllFollow :
    (env : Environment) (id k : Text) (i : ZcashInvoice) (s : Store)
    → lookup k s.invoices ≡ some i
    → AllFollow k i (settle_processing env id s).0
unfolding settle_processing update_to_processing
settle_processing-AllFollow env id k i s h = elim (Bool-cases env.update_fails) [
  | inl g ↦ rw g (i, h, Follows-self i)
  | inr g ↦
      let (j, e', follows) =
        update_where-AllFollow (λ i. is_pending i.status) (λ i. record i { status = processing }) id
          k i s (λ r o. processing-Follows r o) h in
      rw g (
        j,
        ap (lookup k) (finish-invoices env id processing (update_to_processing id s)) ∙ e',
        follows,
      )
]

-- No callback loses an invoice or changes whose it is, what it is for and its amount, and none moves
-- an invoice back: a pending one may become processing or paid, a processing one paid, and a paid or
-- expired one stays what it is.
pub handle_payment_callback-Follows :
    (parse : Text → Option Text) (env : Environment) (backend : Option BackendInvoice) (s : Store)
    (id_text : Text) (status : Status) (amount : ℕ) (k : Text) (i : ZcashInvoice)
    → lookup k s.invoices ≡ some i
    → (j : ZcashInvoice) × (lookup k
          (handle_payment_callback parse env backend s id_text status amount).0.invoices
        ≡ some j)
      × Follows i j
handle_payment_callback-Follows parse env backend s id_text status amount k i h =
    handle_payment_callback-elim parse env backend s id_text status amount (λ z. AllFollow k i z.0)
      (λ x _. (i, h, Follows-self i)) (λ id row b _ _ _ _. settle_paid-AllFollow env id k row i s h)
      (λ id row _ _ _. settle_processing-AllFollow env id k i s h)
