-- ===== src/Fai/Repeats.antt =====
-- What a repeated event of the chain does (internal/fai/service.go): the listener and the sync of old blocks
-- deliver the same event.
use mathlib.Core.Option.{some-injective}
use enchanted_proxy.Prelude.{
  ◌*◌, ◌^◌, ◌≤◌, ℕ, true, false, List, [], ◌∷◌, some, Text, All, text_key, lookup, ◌≡◌, inl, inr,
  refl, sym, ap, ◌∙◌, arith, subst, lookup-insert_self,
}
use enchanted_proxy.Payments.Store.{Product}
use enchanted_proxy.Fai.Event.{Log, Payment, decode}
use enchanted_proxy.Fai.Service.{
  is_pending, PaymentIntent, Database, Environment, Outcome, accepted, is_short, grant,
  completed_with, complete, check_payment, process_payment, handle_payment_received_event,
  handle_all,
}
use enchanted_proxy.Fai.Grants.{
  Covers, granted, handle_payment_received_event-Settles, update_to_completed-there,
}

-- If the event is a payment, it is one for this intent.
abbrev pub IsFor : Text → Log → Type 0
IsFor id log = (pay : Payment) → decode log.bytes ≡ some pay → pay.payment_id ≡ id

-- An intent that is not pending is safe from events for it.
handle-closed :
    (env : Environment) (log : Log) (d : Database) (id : Text) (i : PaymentIntent)
    → lookup id d.intents ≡ some i
    → is_pending i.status ≡ false
    → IsFor id log
    → (handle_payment_received_event env log d).0 ≡ d
handle-closed env log d id i e closed for_it =
    elim (handle_payment_received_event-Settles env log d) [
      | inr (same, _) ↦ same
      | inl (pay, j, p, c, _) ↦
          let there : lookup id d.intents ≡ some j =
            subst (λ k. lookup k d.intents ≡ some j) (for_it pay c.decoded) c.there in
          let same : j ≡ i = some-injective j i (sym there ∙ e) in
          let clash : true ≡ false =
            sym c.waiting ∙ ap (λ (v : PaymentIntent). is_pending v.status) same ∙ closed in
          cc
    ]

handle_all-closed :
    (env : Environment) (logs : List Log) (d : Database) (id : Text) (i : PaymentIntent)
    → lookup id d.intents ≡ some i
    → is_pending i.status ≡ false
    → All (IsFor id) logs
    → handle_all env logs d ≡ d
unfolding handle_all
handle_all-closed env [] d id i e closed h = refl
handle_all-closed env (log ∷ logs) d id i e closed h =
    ap (handle_all env logs) (handle-closed env log d id i e closed h.0)
    ∙ handle_all-closed env logs d id i e closed h.1

covers_enough :
    (amount decimals price price_usd : ℕ)
    → price_usd * 95 * 10 ^ decimals ≤ amount * price * 100
    → is_short amount decimals price price_usd ≡ false
unfolding is_short
covers_enough amount decimals price price_usd h = ground arith

check_payment-Covers :
    (env : Environment) (log : Log) (d : Database) (pay : Payment) (i : PaymentIntent) (p : Product)
    → Covers env log d pay i p
    → check_payment env log pay i d ≡ complete env log pay i p d
unfolding check_payment
check_payment-Covers env log d pay i p c =
    rw (c.supported, check_payment)
      (rw c.priced
        (rw c.known (rw (covers_enough pay.amount c.decimals c.price i.price_usd c.enough) refl)))

complete-accepted :
    (env : Environment) (log : Log) (pay : Payment) (i : PaymentIntent) (p : Product) (d : Database)
    → env.grant_fails ≡ false
    → lookup pay.payment_id d.intents ≡ some i
    → is_pending i.status ≡ true
    → complete env log pay i p d ≡ (granted env log pay i p d, accepted)
unfolding complete
complete-accepted env log pay i p d up e waiting = ground (
  arith,
  update_to_completed-there env log pay i (record d { store = grant env i p d.store }) e waiting,
)

process_payment-Covers :
    (env : Environment) (log : Log) (d : Database) (pay : Payment) (i : PaymentIntent) (p : Product)
    → env.get_fails ≡ false
    → Covers env log d pay i p
    → process_payment env log pay d ≡ check_payment env log pay i d
unfolding process_payment
process_payment-Covers env log d pay i p got c =
    let there = c.there in let waiting = c.waiting in ground arith

handle-Covers :
    (env : Environment) (log : Log) (d : Database) (pay : Payment) (i : PaymentIntent) (p : Product)
    → Covers env log d pay i p
    → handle_payment_received_event env log d ≡ process_payment env log pay d
unfolding handle_payment_received_event
handle-Covers env log d pay i p c =
    let is_event = c.is_event in let decoded = c.decoded in ground arith

-- A covering event is accepted, if the database answers.
pub handle-accepted :
    (env : Environment) (log : Log) (d : Database) (pay : Payment) (i : PaymentIntent) (p : Product)
    → env.get_fails ≡ false
    → env.grant_fails ≡ false
    → Covers env log d pay i p
    → handle_payment_received_event env log d ≡ (granted env log pay i p d, accepted)
handle-accepted env log d pay i p got up c =
    handle-Covers env log d pay i p c
    ∙ process_payment-Covers env log d pay i p got c
    ∙ check_payment-Covers env log d pay i p c
    ∙ complete-accepted env log pay i p d up c.there c.waiting

-- A payment counts once: after an event that covers its intent was accepted and the intent was updated, all
-- further events for the intent, the same one included and whatever they pay, change nothing.
pub payment_counts_once :
    (env env' : Environment) (log : Log) (logs : List Log) (d : Database) (pay : Payment)
    (i : PaymentIntent) (p : Product)
    → Covers env log d pay i p
    → env.get_fails ≡ false
    → env.grant_fails ≡ false
    → env.update_fails ≡ false
    → All (IsFor pay.payment_id) logs
    → let after = (handle_payment_received_event env log d).0 in handle_all env' logs after ≡ after
payment_counts_once env env' log logs d pay i p c got up done h =
    let e : (handle_payment_received_event env log d).0 ≡ granted env log pay i p d =
      ap (λ (r : Database × Outcome). r.0) (handle-accepted env log d pay i p got up c) in
    subst (λ (after : Database). handle_all env' logs after ≡ after) (sym e)
      (handle_all-closed env' logs (granted env log pay i p d) pay.payment_id
        (completed_with env log pay i) there refl h)
  where
    there :
        lookup pay.payment_id (granted env log pay i p d).intents
        ≡ some (completed_with env log pay i)
    there =
        ground (arith, lookup-insert_self pay.payment_id (completed_with env log pay i) d.intents)

granted-store :
    (env : Environment) (log : Log) (pay : Payment) (i : PaymentIntent) (p : Product) (d : Database)
    → (granted env log pay i p d).store ≡ grant env i p d.store
granted-store env log pay i p d = ground arith

-- But where the update of the intent fails, which is only logged, the intent stays pending, and the same event
-- grants its product again when it is delivered again.
pub failed_update_grants_again :
    (env env' : Environment) (log : Log) (d : Database) (pay : Payment) (i : PaymentIntent)
    (p : Product)
    → Covers env log d pay i p
    → Covers env' log d pay i p
    → env.get_fails ≡ false
    → env.grant_fails ≡ false
    → env.update_fails ≡ true
    → env'.get_fails ≡ false
    → env'.grant_fails ≡ false
    → let after = (handle_payment_received_event env log d).0 in
      let again = (handle_payment_received_event env' log after).0 in
      (after.intents ≡ d.intents) × (again.store ≡ grant env' i p (grant env i p d.store))
failed_update_grants_again env env' log d pay i p c c' got up fails got' up' =
    let e : (handle_payment_received_event env log d).0 ≡ after =
      ap (λ (r : Database × Outcome). r.0) (handle-accepted env log d pay i p got up c)
      ∙ unchanged in
    subst
      (λ (v : Database).
        (v.intents ≡ d.intents)
        × ((handle_payment_received_event env' log v).0.store
            ≡ grant env' i p (grant env i p d.store)))
      (sym e)
      (
        refl,
        ap (λ (r : Database × Outcome). r.0.store)
              (handle-accepted env' log after pay i p got' up' (covers_after c'))
            ∙ granted-store env' log pay i p after,
      )
  where
    after : Database
    after = record d { store = grant env i p d.store }

    unchanged : granted env log pay i p d ≡ after
    unchanged = ground arith

    covers_after : Covers env' log d pay i p → Covers env' log after pay i p
    covers_after k = record {
      is_event = k.is_event;
      decoded = k.decoded;
      there = k.there;
      waiting = k.waiting;
      known = k.known;
      decimals = k.decimals;
      supported = k.supported;
      price = k.price;
      priced = k.priced;
      enough = k.enough;
    }
