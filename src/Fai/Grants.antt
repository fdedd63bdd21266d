-- ===== src/Fai/Grants.antt =====
-- Who gets an entitlement from an event of the chain, and for how much (internal/fai/service.go).
use enchanted_proxy.Prelude.{
  subst, ◌*◌, ◌^◌, ◌≤◌, ℕ, true, false, some, if◌then◌else◌, text_key, lookup, insert, ◌≡◌, ◌≢◌,
  ◌⊎◌, inl, inr, refl, arith, Bool-cases, Option-cases,
}
use enchanted_proxy.Payments.Store.{Product, get_product}
use enchanted_proxy.Fai.Event.{Log, Payment, decode}
use enchanted_proxy.Fai.Service.{
  is_pending, PaymentIntent, Database, Environment, Outcome, accepted, price_of, is_short, grant,
  completed_with, update_to_completed, complete, check_payment, process_payment,
  handle_payment_received_event,
}

-- A payment that covers the pending intent it names, less five percent, in a supported token.
pub record Covers (env : Environment) (log : Log) (d : Database) (pay : Payment) (i : PaymentIntent)
    (p : Product) : Type 0 where
  pub is_event : log.is_payment ≡ true
  pub decoded : decode log.bytes ≡ some pay
  pub there : lookup pay.payment_id d.intents ≡ some i
  pub waiting : is_pending i.status ≡ true
  pub known : get_product i.product_id ≡ some p
  pub decimals : ℕ
  pub supported : env.token_config (env.address_hex pay.token) ≡ some decimals
  pub price : ℕ
  pub priced : price_of env i ≡ some price
  pub enough : i.price_usd * 95 * 10 ^ decimals ≤ pay.amount * price * 100

-- The database after a payment that was granted.
abbrev pub granted : Environment → Log → Payment → PaymentIntent → Product → Database → Database
granted env log pay i p d =
    let d' = record d { store = grant env i p d.store } in
    if env.update_fails
    then d'
    else record d' { intents = insert pay.payment_id (completed_with env log pay i) d'.intents }

-- What an event does.
abbrev pub Settles : Environment → Log → Database → Database × Outcome → Type 0
Settles env log d r =
    ((pay : Payment) × (i : PaymentIntent) × (p : Product) × Covers env log d pay i p
      × (r ≡ (granted env log pay i p d, accepted)))
    ⊎ ((r.0 ≡ d) × (r.1 ≢ accepted))

pub update_to_completed-there :
    (env : Environment) (log : Log) (pay : Payment) (i : PaymentIntent) (d : Database)
    → lookup pay.payment_id d.intents ≡ some i
    → is_pending i.status ≡ true
    → update_to_completed env log pay d
      ≡ record d { intents = insert pay.payment_id (completed_with env log pay i) d.intents }
unfolding update_to_completed
update_to_completed-there env log pay i d e waiting = rw (e, update_to_completed) (rw waiting refl)

complete-granted :
    (env : Environment) (log : Log) (pay : Payment) (i : PaymentIntent) (p : Product) (d : Database)
    → lookup pay.payment_id d.intents ≡ some i
    → is_pending i.status ≡ true
    → (complete env log pay i p d ≡ (granted env log pay i p d, accepted))
      ⊎ (((complete env log pay i p d).0 ≡ d) × ((complete env log pay i p d).1 ≢ accepted))
unfolding complete
complete-granted env log pay i p d e waiting = elim (Bool-cases env.grant_fails) [
  | inl a ↦ inr (ground arith, λ h. ground arith)
  | inr a ↦ elim (Bool-cases env.update_fails) [
    | inl b ↦ inl (ground arith)
    | inr b ↦ inl (
        ground (
          arith,
          update_to_completed-there env log pay i (record d { store = grant env i p d.store }) e
              waiting,
        ))
  ]
]

-- What is known of an intent that is checked.
abbrev Checked : Environment → Log → Payment → PaymentIntent → Database → Type 0
Checked env log pay i d =
    (log.is_payment ≡ true)
    × (decode log.bytes ≡ some pay)
    × (lookup pay.payment_id d.intents ≡ some i)
    × (is_pending i.status ≡ true)

long_enough :
    (amount decimals price price_usd : ℕ)
    → is_short amount decimals price price_usd ≡ false
    → price_usd * 95 * 10 ^ decimals ≤ amount * price * 100
unfolding is_short
long_enough amount decimals price price_usd h = ground arith

check_payment-Settles :
    (env : Environment) (log : Log) (pay : Payment) (i : PaymentIntent) (d : Database)
    → Checked env log pay i d
    → Settles env log d (check_payment env log pay i d)
unfolding check_payment
check_payment-Settles env log pay i d c =
    elim (Option-cases (env.token_config (env.address_hex pay.token))) [
      | inl a ↦ rw (a, check_payment) (inr (refl, λ h. cc))
      | inr (decimals, a) ↦
          rw (a, check_payment)
            (elim (Option-cases (price_of env i)) [
              | inl b ↦ rw b (inr (refl, λ h. cc))
              | inr (price, b) ↦ rw b (elim (Option-cases (get_product i.product_id)) [
                | inl k ↦ rw k (inr (refl, λ h. cc))
                | inr (p, k) ↦
                    rw k (elim (Bool-cases (is_short pay.amount decimals price i.price_usd)) [
                      | inl short ↦ rw short (inr (refl, λ h. cc))
                      | inr long ↦ rw long (elim (complete-granted env log pay i p d c.2 c.3) [
                        | inl granted_now ↦ inl (
                          pay,
                          i,
                          p,
                          record {
                            is_event = c.0;
                            decoded = c.1;
                            there = c.2;
                            waiting = c.3;
                            known = k;
                            decimals = decimals;
                            supported = a;
                            price = price;
                            priced = b;
                            enough = long_enough pay.amount decimals price i.price_usd long;
                          },
                          granted_now,
                        )
                        | inr refused ↦ inr refused
                      ])
                    ])
              ])
            ])
    ]

process_payment-Settles :
    (env : Environment) (log : Log) (pay : Payment) (d : Database)
    → log.is_payment ≡ true
    → decode log.bytes ≡ some pay
    → Settles env log d (process_payment env log pay d)
unfolding process_payment
process_payment-Settles env log pay d is_event decoded = elim (Bool-cases env.get_fails) [
  | inl a ↦ inr (ground arith, λ h. ground arith)
  | inr a ↦ elim (Option-cases (lookup pay.payment_id d.intents)) [
    | inl e ↦ inr (ground arith, λ h. ground arith)
    | inr (i, e) ↦ elim (Bool-cases (is_pending i.status)) [
      | inr done ↦ inr (ground arith, λ h. ground arith)
      | inl waiting ↦
          subst (Settles env log d) (ground arith)
            (check_payment-Settles env log pay i d (is_event, decoded, e, waiting))
    ]
  ]
]

-- An event of the chain grants at most one product: that of a pending intent which the event names, to the
-- user of the intent, if the event pays in a supported token at least 95 percent of the intent's price, at
-- the price of the token that the intent holds, or else at today's. If the update succeeds, the intent is
-- completed with the event. In every other case the event changes nothing and is not accepted.
pub handle_payment_received_event-Settles :
    (env : Environment) (log : Log) (d : Database)
    → Settles env log d (handle_payment_received_event env log d)
unfolding handle_payment_received_event
handle_payment_received_event-Settles env log d = elim (Bool-cases log.is_payment) [
  | inr a ↦ inr (ground arith, λ h. ground arith)
  | inl a ↦ elim (Option-cases (decode log.bytes)) [
    | inl e ↦ inr (ground arith, λ h. ground arith)
    | inr (pay, e) ↦
        subst (Settles env log d) (ground arith) (process_payment-Settles env log pay d a e)
  ]
]
