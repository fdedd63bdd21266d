-- ===== src/Background/Crowd.antt =====
-- Calls of `StartPolling` (internal/background/polling_manager.go) that run at the same time: each reads the
-- registry, then the counter, and then registers its worker, and other goroutines run in between.
use enchanted_proxy.Prelude.{
  ◌+◌, ◌<◌, ◌%◌, ◌^◌, ℕ, suc, true, false, List, [], ◌∷◌, ◌++◌, map, Text, length, length-append,
  ◌≡◌, refl, ap, ◌∙◌, ◌==◌, lookup, text_key, Option, none, some, arith, ltb→lt,
}
use enchanted_proxy.Background.Polling.{
  is_registered, Worker, PollingManager, new_polling_manager, is_polling, at_limit, register_worker,
  leave, cancel, cancel_found, cancel_polling, cancel_all, less32, get_active_count,
}

-- The manager, the calls that have read the registry, and those that have also passed the limit.
pub record Crowd : Type 0 where
  pub manager : PollingManager
  pub looked : List Text
  pub admitted : List Text

abbrev pub quiet : Crowd
quiet = record { manager = new_polling_manager; looked = []; admitted = [] }

-- At most `callers` calls are between the check of the limit and the registration at a time.
pub data Step (max callers : ℕ) (s : Crowd) : Crowd → Type 0 where
  look :
      (response : Text)
      → is_polling response s.manager ≡ false
      → Step max callers s (record s { looked = response ∷ s.looked })
  admit :
      (before after : List Text) (response : Text)
      → s.looked ≡ before ++ response ∷ after
      → at_limit max s.manager ≡ false
      → length s.admitted < callers
      → Step max callers s (record s { looked = before ++ after; admitted = response ∷ s.admitted })
  register :
      (before after : List Text) (response : Text)
      → s.admitted ≡ before ++ response ∷ after
      → Step max callers s
          (record s { manager = register_worker response s.manager; admitted = before ++ after })
  end_worker :
      (before after : List Worker) (w : Worker)
      → s.manager.running ≡ before ++ w ∷ after
      → Step max callers s (record s { manager = leave w (before ++ after) s.manager })
  cancel_one :
      (response : Text)
      → Step max callers s (record s { manager = cancel_polling response s.manager })
  shut_down : Step max callers s (record s { manager = cancel_all s.manager })

pub data Reach (max callers : ℕ) (start : Crowd) : Crowd → Type 0 where
  here : Reach max callers start start
  then_step :
      {s later : Crowd}
      → Reach max callers start s
      → Step max callers s later
      → Reach max callers start later

-- The counter counts, and workers and admitted calls together stay below the limit and the callers.
IsCounted : ℕ → ℕ → Crowd → Type 0
IsCounted max callers s =
    (s.manager.active_count ≡ length s.manager.running)
    × (length s.manager.running + length s.admitted < max + callers)

less32_small : (a b : ℕ) → a < 2 ^ 31 → b < 2 ^ 31 → less32 a (b % 2 ^ 32) ≡ true → a < b
less32_small a b ha hb h =
    let k = ltb→lt ((a + 2 ^ 31) % 2 ^ 32) ((b % 2 ^ 32 + 2 ^ 31) % 2 ^ 32) h in omega arith

below-limit :
    (max : ℕ) (pm : PollingManager)
    → pm.active_count < 2 ^ 31
    → max < 2 ^ 31
    → at_limit max pm ≡ false
    → pm.active_count < max
unfolding at_limit
below-limit max pm small fits h = less32_small pm.active_count max small fits (ground arith)

length-middle :
    {A : Type 0} (xs ys : List A) (x : A) → length (xs ++ x ∷ ys) ≡ suc (length (xs ++ ys))
length-middle [] ys x = refl
length-middle (z ∷ xs) ys x = ap suc (length-middle xs ys x)

length-map : {A B : Type 0} (f : A → B) (xs : List A) → length (map f xs) ≡ length xs
length-map f [] = refl
length-map f (x ∷ xs) = ap suc (length-map f xs)

length-cancel_found :
    (o : Option ℕ) (pm : PollingManager) → length (cancel_found o pm).running ≡ length pm.running
length-cancel_found none pm = refl
length-cancel_found (some id) pm = length-map (cancel (λ i. i == id)) pm.running

cancel_found-count :
    (o : Option ℕ) (pm : PollingManager) → (cancel_found o pm).active_count ≡ pm.active_count
cancel_found-count none pm = refl
cancel_found-count (some id) pm = refl

module _ (max callers : ℕ) (fits : max + callers < 2 ^ 31) where
  Step-counts :
      {s later : Crowd}
      → Step max callers s later
      → IsCounted max callers s
      → IsCounted max callers later
  unfolding IsCounted register_worker leave cancel_polling cancel_all
  Step-counts {s} (look response fresh) (counts, bounded) = (counts, bounded)
  Step-counts {s} (admit before after response waits free few) (counts, bounded) =
      let room = below-limit max s.manager (omega arith) (omega arith) free in (counts, omega arith)
  Step-counts {s} (register before after response waits) (counts, bounded) =
      let e = ap length waits ∙ length-middle before after response in
      let l =
        length-append s.manager.running
          (record { id = s.manager.spawned; response_id = response; cancelled = false } ∷ []) in
      (omega arith, omega arith)
  Step-counts {s} (end_worker before after w runs) (counts, bounded) =
      let e = ap length runs ∙ length-middle before after w in (omega arith, omega arith)
  Step-counts {s} (cancel_one response) (counts, bounded) =
      let l = length-cancel_found (lookup response s.manager.workers) s.manager in
      let e = cancel_found-count (lookup response s.manager.workers) s.manager in
      (omega arith, omega arith)
  Step-counts {s} shut_down (counts, bounded) =
      let l = length-map (cancel (is_registered s.manager.workers)) s.manager.running in
      (omega arith, omega arith)

  Reach-IsCounted : {s : Crowd} → 0 < callers → Reach max callers quiet s → IsCounted max callers s
  unfolding IsCounted
  Reach-IsCounted some_call here = (refl, omega arith)
  Reach-IsCounted some_call (then_step reach step) =
      Step-counts step (Reach-IsCounted some_call reach)

  -- However the calls interleave, the counter is the number of workers that run, and this number stays below the
  -- limit and the number of the calls that can be between the check and the registration; with one call at a
  -- time it stays within the limit. The sum of the two numbers is below 2 ^ 31.
  pub Reach-counts :
      {s : Crowd}
      → 0 < callers
      → Reach max callers quiet s
      → (get_active_count s.manager ≡ length s.manager.running)
        × (length s.manager.running < max + callers)
  unfolding IsCounted get_active_count
  Reach-counts {s} some_call reach =
      let (counts, bounded) = Reach-IsCounted some_call reach in (counts, omega arith)
