-- ===== src/Payments/Store.antt =====
-- The tables `zcash_invoices` and `entitlements` (internal/storage/pg/queries/zcash_invoices.sql and
-- entitlements.sql), the copy of an invoice's status in Firestore (internal/zcash/firestore.go), and
-- the products of internal/zcash/service.go without names and prices. Times are in seconds; the
-- invoices stand in the order in which they were created.
use enchanted_proxy.Prelude.{
  ltb, ◌&&◌, ◌*◌, ◌+◌, ℕ, insert, lookup, Bool, true, false, List, [], ◌∷◌, Option, none, some,
  Text, codes, text_eq, if◌then◌else◌, text_key,
}

pub data Status : Type 0 where
  pending : Status
  processing : Status
  paid : Status
  expired : Status
  other : Text → Status

abbrev pub is_pending : Status → Bool
is_pending pending = true
is_pending _ = false

abbrev pub is_paid : Status → Bool
is_paid paid = true
is_paid _ = false

-- "processing" and "paid"
abbrev pub is_actionable : Status → Bool
is_actionable processing = true
is_actionable paid = true
is_actionable _ = false

abbrev pub status_eq : Status → Status → Bool
status_eq pending pending = true
status_eq processing processing = true
status_eq paid paid = true
status_eq expired expired = true
status_eq (other s) (other t) = text_eq s t
status_eq _ _ = false

pub record ZcashInvoice : Type 0 where
  pub user_id : Text
  pub product_id : Text
  pub amount_zatoshis : ℕ
  pub status : Status
  pub created_at : ℕ
  pub paid_at : Option ℕ

pub record Entitlement : Type 0 where
  pub subscription_tier : Text
  pub subscription_expires_at : Option ℕ
  pub subscription_provider : Text
  pub stripe_customer_id : Option Text

pub record Store : Type 0 where
  pub invoices : List (Text × ZcashInvoice)
  pub entitlements : List (Text × Entitlement)
  pub firestore : List (Text × Status)

pub record Product : Type 0 where
  pub id : Text
  pub tier : Text
  pub is_lifetime : Bool

abbrev pub product_weekly_pro : Text
product_weekly_pro = codes "silo.pro.weekly"

abbrev pub product_monthly_pro : Text
product_monthly_pro = codes "silo.pro.monthly"

abbrev pub product_yearly_pro : Text
product_yearly_pro = codes "silo.pro.yearly"

abbrev pub product_lifetime_plus : Text
product_lifetime_plus = codes "silo.plus.lifetime"

abbrev pub get_products : List Product
get_products =
    record { id = product_weekly_pro; tier = codes "pro"; is_lifetime = false }
    ∷ record { id = product_monthly_pro; tier = codes "pro"; is_lifetime = false }
    ∷ record { id = product_yearly_pro; tier = codes "pro"; is_lifetime = false }
    ∷ record { id = product_lifetime_plus; tier = codes "plus"; is_lifetime = true }
    ∷ []

abbrev find_product : Text → List Product → Option Product
find_product id [] = none
find_product id (p ∷ ps) = if text_eq p.id id then some p else find_product id ps

unfoldable pub get_product : Text → Option Product
get_product id = find_product id get_products

abbrev pub day : ℕ
day = 86_400

-- `COALESCE`
abbrev pub coalesce : Option Text → Option Text → Option Text
coalesce none b = b
coalesce (some a) b = some a

abbrev pub stripe_of : Option Entitlement → Option Text
stripe_of none = none
stripe_of (some e) = e.stripe_customer_id

-- UpsertEntitlementWithTier
unfoldable pub upsert_with_tier : Text → Entitlement → Store → Store
upsert_with_tier user new s = record s {
  entitlements =
      insert user
        (record new {
          stripe_customer_id =
              coalesce new.stripe_customer_id (stripe_of (lookup user s.entitlements));
        })
        s.entitlements;
}

-- The `CASE` of UpsertEntitlementWithExtension
unfoldable pub extended_expiry : Option Entitlement → Text → ℕ → ℕ → ℕ
extended_expiry none tier base days = base + days * day
extended_expiry (some e) tier base days = elim e.subscription_expires_at [
  | none ↦ base + days * day
  | some until ↦
      if text_eq e.subscription_tier tier && ltb base until
      then until + days * day
      else base + days * day
]

-- UpsertEntitlementWithExtension
unfoldable pub upsert_with_extension : Text → Text → ℕ → ℕ → Text → Option Text → Store → Store
unfolding extended_expiry
upsert_with_extension user tier base days provider stripe s = record s {
  entitlements =
      insert user
        (record {
          subscription_tier = tier;
          subscription_expires_at =
              some (extended_expiry (lookup user s.entitlements) tier base days);
          subscription_provider = provider;
          stripe_customer_id = coalesce stripe (stripe_of (lookup user s.entitlements));
        })
        s.entitlements;
}

-- An `UPDATE` of the status of one invoice, where a condition on it holds.
abbrev pub update_where :
    (ZcashInvoice → Bool) → (ZcashInvoice → ZcashInvoice) → Text → Store → Store
update_where test change id s = elim (lookup id s.invoices) [
  | none ↦ s
  | some i ↦ if test i then record s { invoices = insert id (change i) s.invoices } else s
]

abbrev pub is_open : Status → Bool
is_open pending = true
is_open processing = true
is_open _ = false

unfoldable pub update_to_paid : ℕ → Text → Store → Store
update_to_paid now =
    update_where (λ i. is_open i.status) (λ i. record i { status = paid; paid_at = some now })

unfoldable pub update_to_processing : Text → Store → Store
update_to_processing =
    update_where (λ i. is_pending i.status) (λ i. record i { status = processing })

unfoldable pub update_to_expired : Text → Store → Store
update_to_expired = update_where (λ i. is_pending i.status) (λ i. record i { status = expired })

-- UpdateInvoiceStatusInFirestore: a document that is not there is not made.
unfoldable pub mirror : Text → Status → Store → Store
mirror id status s = elim (lookup id s.firestore) [
  | none ↦ s
  | some _ ↦ record s { firestore = insert id status s.firestore }
]
