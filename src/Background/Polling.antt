-- ===== src/Background/Polling.antt =====
-- The manager of polling workers (internal/background/polling_manager.go). A worker that runs is a goroutine of
-- `runWorker`; the function that cancels it is its number.
use enchanted_proxy.Prelude.{
  ◌+◌, ◌-◌, ◌%◌, ◌^◌, ◌==◌, ltb, not, ℕ, suc, Bool, true, false, List, [], ◌∷◌, ◌++◌, map, any,
  Option, none, some, is_some, Text, text_key, lookup, insert, remove, if◌then◌else◌,
}

pub record Worker : Type 0 where
  pub id : ℕ
  pub response_id : Text
  pub cancelled : Bool

pub record PollingManager : Type 0 where
  pub workers : List (Text × ℕ)
  pub active_count : ℕ
  pub running : List Worker
  pub spawned : ℕ

abbrev pub new_polling_manager : PollingManager
new_polling_manager = record { workers = []; active_count = 0; running = []; spawned = 0 }

-- int32, in two's complement
abbrev pub add32 : ℕ → ℕ → ℕ
add32 a b = (a + b) % 2 ^ 32

abbrev pub less32 : ℕ → ℕ → Bool
less32 a b = ltb ((a + 2 ^ 31) % 2 ^ 32) ((b + 2 ^ 31) % 2 ^ 32)

pub data Started : Type 0 where
  already_polling : Started
  too_many : Started
  started : Started

-- The three parts of StartPolling: the registry is read, the counter is read, and the worker is registered.
abbrev pub is_polling : Text → PollingManager → Bool
is_polling response pm = is_some (lookup response pm.workers)

unfoldable pub at_limit : ℕ → PollingManager → Bool
at_limit max pm = not (less32 pm.active_count (max % 2 ^ 32))

unfoldable pub register_worker : Text → PollingManager → PollingManager
register_worker response pm = record {
  workers = insert response pm.spawned pm.workers;
  active_count = add32 pm.active_count 1;
  running =
      pm.running ++ record { id = pm.spawned; response_id = response; cancelled = false } ∷ [];
  spawned = suc pm.spawned;
}

unfoldable pub start_polling : ℕ → Text → PollingManager → PollingManager × Started
start_polling max response pm =
    if is_polling response pm
    then (pm, already_polling)
    else if at_limit max pm
    then (pm, too_many)
    else (register_worker response pm, started)

-- The deferred calls of runWorker; `rest` are the other goroutines.
unfoldable pub leave : Worker → List Worker → PollingManager → PollingManager
leave w rest pm = record pm {
  workers = remove w.response_id pm.workers;
  active_count = add32 pm.active_count (2 ^ 32 - 1);
  running = rest;
}

abbrev pub cancel : (ℕ → Bool) → Worker → Worker
cancel is_meant w = if is_meant w.id then record w { cancelled = true } else w

abbrev pub cancel_found : Option ℕ → PollingManager → PollingManager
cancel_found none pm = pm
cancel_found (some id) pm = record pm { running = map (cancel (λ i. i == id)) pm.running }

unfoldable pub cancel_polling : Text → PollingManager → PollingManager
cancel_polling response pm = cancel_found (lookup response pm.workers) pm

abbrev pub is_registered : List (Text × ℕ) → ℕ → Bool
is_registered workers id = any (λ entry. entry.1 == id) workers

-- Shutdown cancels what is registered; then it waits for the workers to leave.
unfoldable pub cancel_all : PollingManager → PollingManager
cancel_all pm = record pm { running = map (cancel (is_registered pm.workers)) pm.running }

unfoldable pub get_active_count : PollingManager → ℕ
get_active_count pm = pm.active_count
