-- ===== src/Background/Doubles.antt =====
-- Two calls of `StartPolling` (internal/background/polling_manager.go) for one response at the same time.
use enchanted_proxy.Prelude.{
  ℕ, suc, false, List, [], ◌∷◌, ◌++◌, append_assoc, Text, text_key, none, is_some, lookup,
  lookup-remove, beq_refl, ◌≡◌, refl, ap, arith,
}
use enchanted_proxy.Background.Crowd.{
  Crowd, look, admit, register, end_worker, Reach, here, then_step,
}
use enchanted_proxy.Background.Polling.{
  Worker, PollingManager, is_polling, at_limit, register_worker, leave, cancel_found,
  cancel_polling,
}

abbrev pub idle : PollingManager → Crowd
idle pm = record { manager = pm; looked = []; admitted = [] }

abbrev pub worker_of : ℕ → Text → Worker
worker_of id response = record { id = id; response_id = response; cancelled = false }

unregistered :
    (response : Text) (w : Worker) (rest : List Worker) (pm : PollingManager)
    → w.response_id ≡ response
    → lookup response (leave w rest pm).workers ≡ none
unfolding leave
unregistered response w rest pm e =
    rw (lookup-remove w.response_id response pm.workers, e, beq_refl response)

cancel_polling-unregistered :
    (response : Text) (pm : PollingManager)
    → lookup response pm.workers ≡ none
    → cancel_polling response pm ≡ pm
unfolding cancel_polling
cancel_polling-unregistered response pm h = ap (λ o. cancel_found o pm) h

-- Two calls for one response that both read the registry and the counter before either registers its worker start
-- two workers, also where one place was free. When the first worker ends, nothing is registered for the response,
-- so that `CancelPolling` does not reach the second, which still runs.
pub starts_race :
    (max : ℕ) (response : Text) (pm : PollingManager)
    → is_polling response pm ≡ false
    → at_limit max pm ≡ false
    → let first = worker_of pm.spawned response in
      let second = worker_of (suc pm.spawned) response in
      let both = register_worker response (register_worker response pm) in
      let later = leave first (pm.running ++ second ∷ []) both in
      Reach max 2 (idle pm) (idle later)
      × (both.running ≡ pm.running ++ first ∷ second ∷ [])
      × (later.running ≡ pm.running ++ second ∷ [])
      × (is_polling response later ≡ false)
      × (cancel_polling response later ≡ later)
unfolding register_worker leave
starts_race max response pm fresh free =
    let first = worker_of pm.spawned response in
    let second = worker_of (suc pm.spawned) response in
    let one = register_worker response pm in
    let both = register_worker response one in
    let looked_once = record (idle pm) { looked = response ∷ [] } in
    let looked_twice = record (idle pm) { looked = response ∷ response ∷ [] } in
    let admitted_once = record (idle pm) { looked = response ∷ []; admitted = response ∷ [] } in
    let admitted_twice = record (idle pm) { admitted = response ∷ response ∷ [] } in
    let registered_once = record (idle one) { admitted = response ∷ [] } in
    let order = append_assoc pm.running (first ∷ []) (second ∷ []) in
    let gone = unregistered response first (pm.running ++ second ∷ []) both refl in
    (
      then_step
          (then_step
            (then_step
              (then_step
                (then_step (then_step (then_step here (look response fresh)) (look response fresh))
                  (admit [] (response ∷ []) response refl free (omega arith)))
                (admit [] [] response refl free (omega arith)))
              (register [] (response ∷ []) response refl))
            (register [] [] response refl))
          (end_worker pm.running (second ∷ []) first order),
      order,
      refl,
      ap is_some gone,
      cancel_polling-unregistered response (leave first (pm.running ++ second ∷ []) both) gone,
    )
