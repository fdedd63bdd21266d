-- ===== src/Fai/Service.antt =====
-- internal/fai/service.go with the statements of internal/storage/pg/queries/fai_payment_intents.sql. Prices
-- are multiples of one small unit, and the roundings of Go's floating point are left out. The price of a
-- token, the spelling of an address and the failures of the database are parameters.
use enchanted_proxy.Prelude.{
  ◌||◌, ltb, ◌*◌, ◌^◌, leb, ℕ, Bool, true, false, not, List, [], ◌∷◌, Option, none, some, Text,
  codes, text_eq, if◌then◌else◌, text_key, lookup, insert, is_some,
}
use enchanted_proxy.Payments.Store.{
  Store, Product, get_product, upsert_with_tier, upsert_with_extension,
}
use enchanted_proxy.Payments.Callback.{duration_days, lifetime_end}
use enchanted_proxy.Fai.Event.{Log, Payment, decode}

pub data IntentStatus : Type 0 where
  pending : IntentStatus
  completed : IntentStatus
  expired : IntentStatus

abbrev pub is_pending : IntentStatus → Bool
is_pending pending = true
is_pending _ = false

pub record PaymentIntent : Type 0 where
  pub user_id : Text
  pub product_id : Text
  pub price_usd : ℕ
  pub fai_price : Option ℕ
  pub status : IntentStatus
  pub token_address : Option Text
  pub token_amount : Option ℕ
  pub paid_block : Option ℕ
  pub tx_hash : Option Text
  pub paid_at : Option ℕ
  pub created_at : ℕ

-- The intents by payment id, and the tables of the payments.
pub record Database : Type 0 where
  pub intents : List (Text × PaymentIntent)
  pub store : Store

-- The clock, CoinGecko's price of the token, which calls fail, and the configured tokens: the decimals of
-- the token at an address.
pub record Environment : Type 0 where
  pub now : ℕ
  pub token_price : Option ℕ
  pub get_fails : Bool
  pub grant_fails : Bool
  pub update_fails : Bool
  pub token_config : Text → Option ℕ
  pub address_hex : List ℕ → Text

pub data Outcome : Type 0 where
  accepted : Outcome
  not_a_payment : Outcome
  insufficient_data : Outcome
  query_failed : Outcome
  unknown_payment : Outcome
  not_pending : Outcome
  unsupported_token : Outcome
  no_price : Outcome
  unknown_product : Outcome
  insufficient_payment : Outcome
  grant_failed : Outcome

-- The stored price, or else the one of CoinGecko.
unfoldable pub price_of : Environment → PaymentIntent → Option ℕ
price_of env i = elim i.fai_price [
  | none ↦ env.token_price
  | some price ↦ if ltb 0 price then some price else env.token_price
]

-- amount / 10 ^ decimals * price < price_usd * 0.95
unfoldable pub is_short : ℕ → ℕ → ℕ → ℕ → Bool
is_short amount decimals price price_usd =
    ltb (amount * price * 100) (price_usd * 95 * 10 ^ decimals)

abbrev pub base_time : Environment → PaymentIntent → ℕ
base_time env i = elim i.paid_at [ none ↦ env.now | some t ↦ t ]

-- grantEntitlement
unfoldable pub grant : Environment → PaymentIntent → Product → Store → Store
unfolding upsert_with_tier upsert_with_extension duration_days
grant env i p s =
    if p.is_lifetime
    then upsert_with_tier i.user_id
        (record {
          subscription_tier = p.tier;
          subscription_expires_at = some lifetime_end;
          subscription_provider = codes "fai";
          stripe_customer_id = none;
        })
        s
    else upsert_with_extension i.user_id p.tier (base_time env i) (duration_days p.id) (codes "fai")
        none s

abbrev pub completed_with : Environment → Log → Payment → PaymentIntent → PaymentIntent
completed_with env log pay i = record i {
  status = completed;
  token_address = some (env.address_hex pay.token);
  token_amount = some pay.amount;
  paid_block = some log.block_number;
  tx_hash = some log.tx_hash;
  paid_at = some env.now;
}

-- UpdateFaiPaymentIntentToCompleted
unfoldable pub update_to_completed : Environment → Log → Payment → Database → Database
update_to_completed env log pay d = elim (lookup pay.payment_id d.intents) [
  | none ↦ d
  | some i ↦
      if is_pending i.status
      then record d { intents = insert pay.payment_id (completed_with env log pay i) d.intents }
      else d
]

-- The grant of a checked payment, and the update, whose failure is only logged.
unfoldable pub complete :
    Environment → Log → Payment → PaymentIntent → Product → Database → Database × Outcome
complete env log pay i p d =
    let granted = record d { store = grant env i p d.store } in
    if env.grant_fails
    then (d, grant_failed)
    else ((if env.update_fails then granted else update_to_completed env log pay granted), accepted)

-- The checks of a pending intent, in the order of the code.
unfoldable pub check_payment :
    Environment → Log → Payment → PaymentIntent → Database → Database × Outcome
check_payment env log pay i d = elim (env.token_config (env.address_hex pay.token)) [
  | none ↦ (d, unsupported_token)
  | some decimals ↦ elim (price_of env i) [
    | none ↦ (d, no_price)
    | some price ↦ elim (get_product i.product_id) [
      | none ↦ (d, unknown_product)
      | some p ↦
          if is_short pay.amount decimals price i.price_usd
          then (d, insufficient_payment)
          else complete env log pay i p d
    ]
  ]
]

-- From the query of the intent on.
unfoldable pub process_payment : Environment → Log → Payment → Database → Database × Outcome
process_payment env log pay d =
    if env.get_fails then (d, query_failed) else elim (lookup pay.payment_id d.intents) [
      | none ↦ (d, unknown_payment)
      | some i ↦ if is_pending i.status then check_payment env log pay i d else (d, not_pending)
    ]

unfoldable pub handle_payment_received_event : Environment → Log → Database → Database × Outcome
handle_payment_received_event env log d =
    if not log.is_payment then (d, not_a_payment) else elim (decode log.bytes) [
      | none ↦ (d, insufficient_data)
      | some pay ↦ process_payment env log pay d
    ]

-- Events one after the other; an error is only logged.
unfoldable pub handle_all : Environment → List Log → Database → Database
handle_all env [] d = d
handle_all env (log ∷ logs) d = handle_all env logs (handle_payment_received_event env log d).0

pub data CreateResult : Type 0 where
  created : Text → CreateResult
  invalid_product : CreateResult
  no_fai_price : CreateResult
  not_stored : CreateResult

-- CreatePaymentIntent: the new payment id is random, the price of the product after its discount an argument.
unfoldable pub create_payment_intent :
    Environment → Text → ℕ → Text → Text → Database → Database × CreateResult
create_payment_intent env payment_id charge_price user product d = elim (get_product product) [
  | none ↦ (d, invalid_product)
  | some _ ↦ elim env.token_price [
    | none ↦ (d, no_fai_price)
    | some price ↦
        if leb price 0
        then (d, no_fai_price)
        else if env.update_fails || is_some (lookup payment_id d.intents)
        then (d, not_stored)
        else (
          record d {
            intents =
                insert payment_id
                  (record {
                    user_id = user;
                    product_id = product;
                    price_usd = charge_price;
                    fai_price = some price;
                    status = pending;
                    token_address = none;
                    token_amount = none;
                    paid_block = none;
                    tx_hash = none;
                    paid_at = none;
                    created_at = env.now;
                  })
                  d.intents;
          },
          created payment_id,
        )
  ]
]

-- GetPaymentStatus: another user's intent is not found.
unfoldable pub get_payment_status : Text → Text → Database → Option PaymentIntent
get_payment_status payment_id user d = elim (lookup payment_id d.intents) [
  | none ↦ none
  | some i ↦ if text_eq i.user_id user then some i else none
]
