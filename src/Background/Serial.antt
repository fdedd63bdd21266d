-- ===== src/Background/Serial.antt =====
-- The operations of the polling manager (internal/background/polling_manager.go) one after the other: each call of
-- `StartPolling` registers its worker before the next one looks.
use enchanted_proxy.Background.Runners.{
  Distinct-append, Distinct-cancel, Distinct, Distinct-without, worker_for-cancel,
  worker_for-append, worker_for-without, worker_for,
}
use enchanted_proxy.Prelude.{
  ◌==◌, ℕ, suc, Bool, false, List, [], ◌∷◌, ◌++◌, map, Option, none, some, Text, text_key, text_eq,
  lookup, lookup-insert, lookup-remove, take, drop, get_elem?, if◌then◌else◌, ◌≡◌, refl, sym, ap,
  ◌∙◌, Bool-cases, Option-cases, inl, inr,
}
use enchanted_proxy.Background.Polling.{
  Worker, PollingManager, new_polling_manager, start_polling, at_limit, register_worker, leave,
  cancel, cancel_found, cancel_polling, cancel_all, is_registered,
}

-- A worker that ends is named by its place among those that run.
pub data Operation : Type 0 where
  start : Text → Operation
  stop : Text → Operation
  finish : ℕ → Operation
  shut_down : Operation

abbrev pub finish_found : ℕ → Option Worker → PollingManager → PollingManager
finish_found i none pm = pm
finish_found i (some w) pm = leave w (take i pm.running ++ drop (suc i) pm.running) pm

abbrev pub operate : ℕ → Operation → PollingManager → PollingManager
operate max (start response) pm = (start_polling max response pm).0
operate max (stop response) pm = cancel_polling response pm
operate max (finish i) pm = finish_found i (get_elem? pm.running i) pm
operate max shut_down pm = cancel_all pm

abbrev pub operate_all : ℕ → List Operation → PollingManager → PollingManager
operate_all max [] pm = pm
operate_all max (op ∷ ops) pm = operate_all max ops (operate max op pm)

-- The registry has the workers that run, one for each response at most.
pub IsRegistry : PollingManager → Type 0
IsRegistry pm =
    ((response : Text) → lookup response pm.workers ≡ worker_for response pm.running)
    × Distinct pm.running

start_polling-IsRegistry :
    (max : ℕ) (response : Text) (pm : PollingManager)
    → IsRegistry pm
    → IsRegistry (start_polling max response pm).0
unfolding IsRegistry start_polling register_worker
start_polling-IsRegistry max response pm (same, distinct) =
    elim (Option-cases (lookup response pm.workers)) [
      | inr (id, e) ↦ rw e (same, distinct)
      | inl e ↦ elim (Bool-cases (at_limit max pm)) [
        | inl full ↦ rw (e, full) (same, distinct)
        | inr free ↦
            rw (e, free)
              (let none_of = sym (same response) ∙ e in
                let w : Worker = record {
                  id = pm.spawned;
                  response_id = response;
                  cancelled = false;
                } in
                (
                  (λ r.
                      lookup-insert response r pm.spawned pm.workers
                      ∙ ap (λ o. if text_eq response r then some pm.spawned else o) (same r)
                      ∙ sym (worker_for-append r pm.running w none_of)),
                  Distinct-append pm.running w distinct none_of,
                ))
      ]
    ]

finish_found-IsRegistry :
    (i : ℕ) (o : Option Worker) (pm : PollingManager)
    → get_elem? pm.running i ≡ o
    → IsRegistry pm
    → IsRegistry (finish_found i o pm)
unfolding IsRegistry leave
finish_found-IsRegistry i none pm e h = h
finish_found-IsRegistry i (some w) pm e (same, distinct) = (
  (λ r.
      lookup-remove w.response_id r pm.workers
      ∙ ap (λ o. if text_eq w.response_id r then none else o) (same r)
      ∙ sym (worker_for-without r i pm.running w distinct e)),
  Distinct-without i pm.running distinct,
)

cancelled-IsRegistry :
    (f : ℕ → Bool) (pm : PollingManager)
    → IsRegistry pm
    → IsRegistry (record pm { running = map (cancel f) pm.running })
unfolding IsRegistry
cancelled-IsRegistry f pm (same, distinct) =
    ((λ r. same r ∙ sym (worker_for-cancel r f pm.running)), Distinct-cancel f pm.running distinct)

cancel_found-IsRegistry :
    (o : Option ℕ) (pm : PollingManager) → IsRegistry pm → IsRegistry (cancel_found o pm)
cancel_found-IsRegistry none pm h = h
cancel_found-IsRegistry (some id) pm h = cancelled-IsRegistry (λ i. i == id) pm h

operate-IsRegistry :
    (max : ℕ) (op : Operation) (pm : PollingManager)
    → IsRegistry pm
    → IsRegistry (operate max op pm)
unfolding cancel_polling cancel_all
operate-IsRegistry max (start response) pm h = start_polling-IsRegistry max response pm h
operate-IsRegistry max (stop response) pm h =
    cancel_found-IsRegistry (lookup response pm.workers) pm h
operate-IsRegistry max (finish i) pm h =
    finish_found-IsRegistry i (get_elem? pm.running i) pm refl h
operate-IsRegistry max shut_down pm h = cancelled-IsRegistry (is_registered pm.workers) pm h

operate_all-keeps :
    (max : ℕ) (ops : List Operation) (pm : PollingManager)
    → IsRegistry pm
    → IsRegistry (operate_all max ops pm)
operate_all-keeps max [] pm h = h
operate_all-keeps max (op ∷ ops) pm h =
    operate_all-keeps max ops (operate max op pm) (operate-IsRegistry max op pm h)

-- If the calls come one after the other, then after any operations the registry finds for each response the
-- worker that runs for it, and at most one worker runs for a response.
pub operate_all-IsRegistry :
    (max : ℕ) (ops : List Operation) → IsRegistry (operate_all max ops new_polling_manager)
unfolding IsRegistry
operate_all-IsRegistry max ops = operate_all-keeps max ops new_polling_manager ((λ r. refl), tt)
