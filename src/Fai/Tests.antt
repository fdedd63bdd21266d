-- ===== src/Fai/Tests.antt =====
-- Runs of internal/fai on one intent.
use mathlib.Core.Option.{some-injective}
use enchanted_proxy.Prelude.{
  ltb, ◌+◌, ◌*◌, ◌^◌, ◌-◌, ℕ, suc, true, false, List, [], ◌∷◌, none, some, codes, text_key, ◌≡◌,
  Bool, sym, ap, ◌∙◌, refl, arith, if◌then◌else◌,
}
use enchanted_proxy.Payments.Store.{Product, get_product, product_weekly_pro}
use enchanted_proxy.Fai.Event.{Log, Payment, decode, hex}
use enchanted_proxy.Fai.Encoding.{encode, zeros, decode-encode}
use enchanted_proxy.Fai.Service.{
  pending, PaymentIntent, Database, Environment, handle_payment_received_event, handle_all, grant,
  price_of,
}
use enchanted_proxy.Fai.Grants.{Covers, Settles, handle_payment_received_event-Settles}
use enchanted_proxy.Fai.Repeats.{payment_counts_once, failed_update_grants_again}
use enchanted_proxy.Fai.Sync.{
  FilterLogs, synced, sync_historical_blocks, sync_historical_blocks-all, logs_from,
}

abbrev token : List ℕ
token = 1 ∷ zeros 19

abbrev env_with : Bool → Environment
env_with update_fails = record {
  now = 5_000;
  token_price = none;
  get_fails = false;
  grant_fails = false;
  update_fails = update_fails;
  token_config = λ _. some 18;
  address_hex = hex;
}

-- 4.99 dollars at half a dollar for a token.
abbrev intent : PaymentIntent
intent = record {
  user_id = codes "ann";
  product_id = product_weekly_pro;
  price_usd = 499;
  fai_price = some 50;
  status = pending;
  token_address = none;
  token_amount = none;
  paid_block = none;
  tx_hash = none;
  paid_at = none;
  created_at = 4_000;
}

abbrev database : Database
database = record {
  intents = (hex (7 ∷ zeros 31), intent) ∷ [];
  store = record { invoices = []; entitlements = []; firestore = [] };
}

abbrev paid_log : Log
paid_log = record {
  is_payment = true;
  bytes = encode (7 ∷ zeros 31) token (10 * 10 ^ 18) token;
  block_number = 9;
  tx_hash = codes "0xab";
}

abbrev payment : Payment
payment = record { payment_id = hex (7 ∷ zeros 31); token = token; amount = 10 * 10 ^ 18 }

abbrev weekly : Product
weekly = record { id = product_weekly_pro; tier = codes "pro"; is_lifetime = false }

decode-encode_example :
    decode (encode (7 ∷ zeros 31) token (10 * 10 ^ 18) token)
    ≡ some (record { payment_id = hex (7 ∷ zeros 31); token = token; amount = 10 * 10 ^ 18 })
decode-encode_example =
    decode-encode (7 ∷ zeros 31) token token (10 * 10 ^ 18) refl refl refl (omega arith)

covers : (fails : Bool) → Covers (env_with fails) paid_log database payment intent weekly
unfolding get_product price_of
covers fails = record {
  is_event = refl;
  decoded = decode-encode_example;
  there = refl;
  waiting = refl;
  known = refl;
  decimals = 18;
  supported = refl;
  price = 50;
  priced = refl;
  enough = omega arith;
}

handle_payment_received_event-Settles_example :
    Settles
      (env_with false)
      paid_log
      database
      (handle_payment_received_event (env_with false) paid_log database)
handle_payment_received_event-Settles_example =
    handle_payment_received_event-Settles (env_with false) paid_log database

same_payment :
    (pay : Payment) → decode paid_log.bytes ≡ some pay → pay.payment_id ≡ payment.payment_id
same_payment pay h =
    ap (λ (p : Payment). p.payment_id) (some-injective pay payment (sym h ∙ decode-encode_example))

payment_counts_once_example :
    let after = (handle_payment_received_event (env_with false) paid_log database).0 in
    handle_all (env_with false) (paid_log ∷ []) after ≡ after
payment_counts_once_example =
    payment_counts_once (env_with false) (env_with false) paid_log (paid_log ∷ []) database payment
      intent weekly (covers false) refl refl refl (same_payment, tt)

failed_update_grants_again_example :
    let after = (handle_payment_received_event (env_with true) paid_log database).0 in
    let again = (handle_payment_received_event (env_with true) paid_log after).0 in
    (after.intents ≡ database.intents)
    × (again.store
        ≡ grant (env_with true) intent weekly (grant (env_with true) intent weekly database.store))
failed_update_grants_again_example =
    failed_update_grants_again (env_with true) (env_with true) paid_log database payment intent
      weekly (covers true) (covers true) refl refl refl refl refl

abbrev chain : ℕ → List Log
chain block = if ltb block 9 then [] else if ltb 9 block then [] else paid_log ∷ []

abbrev client : FilterLogs
client start end = some (logs_from chain start (end + 1 - start))

client_answers : (start n : ℕ) → client start (start + n) ≡ some (logs_from chain start (suc n))
client_answers start n =
    let count : start + n + 1 - start ≡ suc n = omega arith in
    ap (λ (k : ℕ). some (logs_from chain start k)) count

sync_historical_blocks-all_example :
    sync_historical_blocks client (env_with false) (some 2_000) database
    ≡ synced (handle_all (env_with false) (logs_from chain 200 1_801) database) 2_000
sync_historical_blocks-all_example =
    sync_historical_blocks-all chain client (env_with false) 2_000 database client_answers
      (omega arith)
