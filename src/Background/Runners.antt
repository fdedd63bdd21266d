-- ===== src/Background/Runners.antt =====
-- The workers that run for a response, for the registry of internal/background/polling_manager.go.
use mathlib.Core.Option.{some-injective}
use enchanted_proxy.Prelude.{
  ℕ, zero, suc, Bool, true, false, List, [], ◌∷◌, ◌++◌, map, Option, none, some, is_some, Text,
  text_key, text_eq, text_eq_iff, text_eq_sym, take, drop, get_elem?, if◌then◌else◌, ◌≡◌, refl, sym,
  ap, ◌∙◌, arith, Bool-cases, subst, inl, inr,
}
use enchanted_proxy.Background.Polling.{Worker, cancel}

-- The worker that runs for a response.
abbrev pub worker_for : Text → List Worker → Option ℕ
worker_for response [] = none
worker_for response (w ∷ ws) =
    if text_eq w.response_id response then some w.id else worker_for response ws

abbrev pub Distinct : List Worker → Type 0
Distinct [] = Unit
Distinct (w ∷ ws) = (worker_for w.response_id ws ≡ none) × Distinct ws

worker_for-none_cons :
    (response : Text) (x : Worker) (xs : List Worker)
    → worker_for response (x ∷ xs) ≡ none
    → (text_eq x.response_id response ≡ false) × (worker_for response xs ≡ none)
worker_for-none_cons response x xs h = elim (Bool-cases (text_eq x.response_id response)) [
  | inl e ↦ ground arith
  | inr e ↦ ground arith
]

pub worker_for-append :
    (response : Text) (xs : List Worker) (w : Worker)
    → worker_for w.response_id xs ≡ none
    → worker_for response (xs ++ w ∷ [])
      ≡ (if text_eq w.response_id response then some w.id else worker_for response xs)
worker_for-append response [] w h = refl
worker_for-append response (x ∷ xs) w h = ground (
  arith,
  text_eq_iff x.response_id response,
  text_eq_iff w.response_id response,
  text_eq_iff x.response_id w.response_id,
  worker_for-append response xs w,
)

pub Distinct-append :
    (xs : List Worker) (w : Worker)
    → Distinct xs
    → worker_for w.response_id xs ≡ none
    → Distinct (xs ++ w ∷ [])
Distinct-append [] w d h = (refl, tt)
Distinct-append (x ∷ xs) w (fresh, d) h =
    let (other, none_of) = worker_for-none_cons w.response_id x xs h in
    (
      worker_for-append x.response_id xs w none_of
          ∙ rw (text_eq_sym x.response_id w.response_id other) fresh,
      Distinct-append xs w d none_of,
    )

-- A worker that runs is found.
worker_for-there :
    (i : ℕ) (xs : List Worker) (w : Worker)
    → get_elem? xs i ≡ some w
    → is_some (worker_for w.response_id xs) ≡ true
worker_for-there i [] w h = cc
worker_for-there zero (x ∷ xs) w h =
    let e = ap (λ y. y.response_id) (some-injective x w h) in
    ground (arith, e, text_eq_iff x.response_id w.response_id)
worker_for-there (suc i) (x ∷ xs) w h = ground (arith, worker_for-there i xs w)

without-first :
    (response : Text) (x : Worker) (xs : List Worker)
    → worker_for x.response_id xs ≡ none
    → worker_for response xs
      ≡ (if text_eq x.response_id response then none else worker_for response (x ∷ xs))
without-first response x xs fresh = elim (Bool-cases (text_eq x.response_id response)) [
  | inl e ↦
      rw e (ap (λ r. worker_for r xs) (sym ((text_eq_iff x.response_id response).0 e)) ∙ fresh)
  | inr e ↦ rw e refl
]

-- Without a worker, nothing runs for its response.
pub worker_for-without :
    (response : Text) (i : ℕ) (xs : List Worker) (w : Worker)
    → Distinct xs
    → get_elem? xs i ≡ some w
    → worker_for response (take i xs ++ drop (suc i) xs)
      ≡ (if text_eq w.response_id response then none else worker_for response xs)
worker_for-without response i [] w d h = cc
worker_for-without response zero (x ∷ xs) w (fresh, d) h =
    subst
      (λ v.
        worker_for response xs
        ≡ (if text_eq v.response_id response then none else worker_for response (x ∷ xs)))
      (some-injective x w h) (without-first response x xs fresh)
worker_for-without response (suc i) (x ∷ xs) w (fresh, d) h =
    let there = worker_for-there i xs w h in
    let rest = worker_for-without response i xs w d h in
    elim (Bool-cases (text_eq x.response_id response)) [
      | inl e ↦ elim (Bool-cases (text_eq w.response_id response)) [
        | inl e' ↦
            (let same = (text_eq_iff x.response_id response).0 e in
              let same' = (text_eq_iff w.response_id response).0 e' in
              let clash =
                sym there
                ∙ ap (λ r. is_some (worker_for r xs)) (same' ∙ sym same)
                ∙ ap is_some fresh in
              cc)
        | inr e' ↦ rw (e, e') refl
      ]
      | inr e ↦ rw e rest
    ]

worker_for-none :
    (response : Text) (i : ℕ) (xs : List Worker)
    → worker_for response xs ≡ none
    → worker_for response (take i xs ++ drop (suc i) xs) ≡ none
worker_for-none response zero [] h = refl
worker_for-none response (suc i) [] h = refl
worker_for-none response zero (x ∷ xs) h = ground arith
worker_for-none response (suc i) (x ∷ xs) h = ground (arith, worker_for-none response i xs)

pub Distinct-without :
    (i : ℕ) (xs : List Worker) → Distinct xs → Distinct (take i xs ++ drop (suc i) xs)
Distinct-without zero [] d = tt
Distinct-without (suc i) [] d = tt
Distinct-without zero (x ∷ xs) (fresh, d) = d
Distinct-without (suc i) (x ∷ xs) (fresh, d) =
    (worker_for-none x.response_id i xs fresh, Distinct-without i xs d)

-- To cancel a worker changes neither its response nor its number.
cancelled-same :
    (b : Bool) (w : Worker)
    → let v = if b then record w { cancelled = true } else w in
      (v.response_id ≡ w.response_id) × (v.id ≡ w.id)
cancelled-same true w = (refl, refl)
cancelled-same false w = (refl, refl)

pub worker_for-cancel :
    (response : Text) (f : ℕ → Bool) (xs : List Worker)
    → worker_for response (map (cancel f) xs) ≡ worker_for response xs
worker_for-cancel response f [] = refl
worker_for-cancel response f (x ∷ xs) =
    rw (
      (cancelled-same (f x.id) x).0,
      (cancelled-same (f x.id) x).1,
      worker_for-cancel response f xs,
    )

pub Distinct-cancel : (f : ℕ → Bool) (xs : List Worker) → Distinct xs → Distinct (map (cancel f) xs)
Distinct-cancel f [] d = tt
Distinct-cancel f (x ∷ xs) (fresh, d) = (
  rw ((cancelled-same (f x.id) x).0, worker_for-cancel x.response_id f xs) fresh,
  Distinct-cancel f xs d,
)
