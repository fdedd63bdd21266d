-- ===== src/Background/Tests.antt =====
-- The properties of the polling manager of internal/background/polling_manager.go at concrete workers.
use enchanted_proxy.Prelude.{◌+◌, ◌<◌, false, [], ◌∷◌, Text, codes, length, ◌≡◌, refl, arith}
use enchanted_proxy.Background.Polling.{
  PollingManager, new_polling_manager, register_worker, is_polling, cancel_polling,
  get_active_count, leave,
}
use enchanted_proxy.Background.Crowd.{
  Crowd, quiet, Reach, here, then_step, look, admit, register, Reach-counts,
}
use enchanted_proxy.Background.Doubles.{starts_race, idle, worker_of}
use enchanted_proxy.Background.Serial.{
  start, stop, finish, operate_all, operate_all-IsRegistry, IsRegistry,
}

abbrev answer : Text
answer = codes "resp_1"

-- One worker is started.
abbrev one_started : Crowd
one_started = idle (register_worker answer new_polling_manager)

one_started-Reach : Reach 3 2 quiet one_started
unfolding enchanted_proxy.Background.Polling.at_limit
one_started-Reach =
    then_step
      (then_step (then_step here (look answer refl)) (admit [] [] answer refl refl (omega arith)))
      (register [] [] answer refl)

Reach-counts_example :
    (get_active_count one_started.manager ≡ length one_started.manager.running)
    × (length one_started.manager.running < 3 + 2)
Reach-counts_example = Reach-counts 3 2 (omega arith) (omega arith) one_started-Reach

starts_race_example :
    let first = worker_of 0 answer in
    let second = worker_of 1 answer in
    let both = register_worker answer (register_worker answer new_polling_manager) in
    let later = leave first (second ∷ []) both in
    Reach 1 2 (idle new_polling_manager) (idle later)
    × (both.running ≡ first ∷ second ∷ [])
    × (later.running ≡ second ∷ [])
    × (is_polling answer later ≡ false)
    × (cancel_polling answer later ≡ later)
unfolding enchanted_proxy.Background.Polling.at_limit
starts_race_example = starts_race 1 answer new_polling_manager refl refl

operate_all-IsRegistry_example : IsRegistry (
    operate_all 2
      (start answer ∷ start (codes "resp_2") ∷ stop answer ∷ finish 0 ∷ start answer ∷ [])
      new_polling_manager)
operate_all-IsRegistry_example =
    operate_all-IsRegistry 2
      (start answer ∷ start (codes "resp_2") ∷ stop answer ∷ finish 0 ∷ start answer ∷ [])
