-- ===== src/Routing/RoundRobin.antt =====
-- The requests for a model in turn: the counter moves on by one with each of them
-- (`getModelEndpointProvider`, internal/routing/model_router.go).
use enchanted_proxy.Routing.Choice.{
  get_elem?-lt, get_model_endpoint_provider-known, lookup-get_model_endpoint_provider,
  counted-active, answer, select_at-answer,
}
use enchanted_proxy.Prelude.{
  Option-cases, leb→le, leb, ℕ, zero, suc, ◌+◌, ◌-◌, ◌%◌, ◌<◌, [], ◌≡◌, ◌≢◌, refl, sym, ap, ◌∙◌,
  inl, inr, Option, some, Text, if◌then◌else◌, arith, Bool-cases, text_key, lookup, length,
  get_elem?,
}
use native.Mathlib.Nat.{add-mod_right, mod-add-mod, mod-lt, mod-eq_of_lt}
use enchanted_proxy.Routing.Types.{ModelEndpoint, ModelRoute, ModelRouter}
use enchanted_proxy.Routing.Select.{
  active_at, place_of, Selected, select_at, get_model_endpoint_provider, get_open_router_api_key,
  uint64,
}

-- The router after `n` more requests for a model.
unfoldable pub after_calls : ℕ → ModelRouter → Text → Text → ModelRouter
after_calls zero mr model platform = mr
after_calls (suc n) mr model platform =
    after_calls n (get_model_endpoint_provider mr model platform).0 model platform

abbrev pub with_counter : ModelRoute → ℕ → ModelRoute
with_counter r c = record r { round_robin_counter = c }

-- After `k` requests for a model the counter has moved `k` steps, and nothing else of the route.
after_calls-route :
    (k : ℕ) (mr : ModelRouter) (model platform : Text) (r : ModelRoute)
    → lookup model mr.routes ≡ some r
    → r.active_endpoints ≢ []
    → r.round_robin_counter + k < uint64
    → lookup model (after_calls k mr model platform).routes
      ≡ some (with_counter r (r.round_robin_counter + k))
unfolding after_calls
after_calls-route zero mr model platform r e h b =
    e ∙ ap (λ (c : ℕ). some (with_counter r c)) (omega arith)
after_calls-route (suc k) mr model platform r e h b =
    after_calls-route k (get_model_endpoint_provider mr model platform).0 model platform
      (with_counter r (r.round_robin_counter + 1))
      (lookup-get_model_endpoint_provider mr model platform r e
        ∙ ap some (
            (counted-active r.active_endpoints r.inactive_endpoints r.round_robin_counter h).0
            ∙ ap (with_counter r) (mod-eq_of_lt (omega arith))))
      h (omega arith)
    ∙ ap (λ (c : ℕ). some (with_counter r c)) (omega arith)

abbrev pub turn : ℕ → ℕ → ℕ → ℕ
turn n c i = if leb (c % n) i then i - c % n else i + n - c % n

turn_lem : (n c i : ℕ) → i < n → (turn n c i < n) × ((c + turn n c i) % n ≡ i)
turn_lem n c i h = elim (Bool-cases (leb (c % n) i)) [
  | inl e ↦ rw e (
    omega arith,
    sym (mod-add-mod c n (i - c % n))
        ∙ ap (λ (t : ℕ). t % n) (omega (arith, leb→le (c % n) i e))
        ∙ mod-eq_of_lt h,
  )
  | inr e ↦ rw e (
    ground (arith, mod-lt c {m = n}),
    sym (mod-add-mod c n (i + n - c % n))
        ∙ ap (λ (t : ℕ). t % n) (ground (arith, mod-lt c {m = n}))
        ∙ add-mod_right i n
        ∙ mod-eq_of_lt h,
  )
]

-- Requests do not change the keys.
call-keys :
    (mr : ModelRouter) (model platform : Text)
    → (get_model_endpoint_provider mr model platform).0.api_keys ≡ mr.api_keys
unfolding get_model_endpoint_provider
call-keys mr model platform = elim (Option-cases (lookup model mr.routes)) [
  | inl e ↦ rw (e, get_model_endpoint_provider) refl
  | inr (r, e) ↦ rw (e, get_model_endpoint_provider) refl
]

after_calls-keys :
    (k : ℕ) (mr : ModelRouter) (model platform : Text)
    → (after_calls k mr model platform).api_keys ≡ mr.api_keys
unfolding after_calls
after_calls-keys zero mr model platform = refl
after_calls-keys (suc k) mr model platform =
    after_calls-keys k (get_model_endpoint_provider mr model platform).0 model platform
    ∙ call-keys mr model platform

same-keys :
    (mr mr' : ModelRouter) (platform : Text)
    → mr'.api_keys ≡ mr.api_keys
    → get_open_router_api_key mr' platform ≡ get_open_router_api_key mr platform
unfolding get_open_router_api_key
same-keys mr mr' platform e = rw e refl

-- While a model has active endpoints and its counter does not wrap, the requests for it are sent to the active
-- endpoints in turn, from the counter on, modulo their number: within as many requests as there are active
-- endpoints, each of them, number `i`, gets the request `k` for which counter + k is `i` modulo that number, and
-- the request is answered by the provider of that endpoint, or refused if that is OpenRouter and there is no key.
pub round_robin_fair :
    (mr : ModelRouter) (model platform : Text) (r : ModelRoute) (i : ℕ)
    → lookup model mr.routes ≡ some r
    → i < length r.active_endpoints
    → r.round_robin_counter + length r.active_endpoints < uint64
    → (k : ℕ) × (x : ModelEndpoint) × (k < length r.active_endpoints)
      × ((r.round_robin_counter + k) % length r.active_endpoints ≡ i)
      × (get_elem? r.active_endpoints i ≡ some x)
      × ((get_model_endpoint_provider (after_calls k mr model platform) model platform).1
          ≡ answer (get_open_router_api_key mr platform) x (active_at i))
round_robin_fair mr model platform r i e h b =
    let n = length r.active_endpoints in
    let k = turn n r.round_robin_counter i in
    let t = turn_lem n r.round_robin_counter i h in
    let filled : r.active_endpoints ≢ [] =
      λ z. absurd (omega (arith, ap (length {A = ModelEndpoint}) z)) in
    let (x, at_i) = get_elem?-lt r.active_endpoints i h in
    let before = after_calls k mr model platform in
    let later = with_counter r (r.round_robin_counter + k) in
    let known = after_calls-route k mr model platform r e filled (omega (arith, t.0)) in
    let place : place_of later ≡ some (active_at i) =
      (counted-active r.active_endpoints r.inactive_endpoints (r.round_robin_counter + k) filled).1
      ∙ ap (λ (j : ℕ). some (active_at j)) t.1 in
    (
      k,
      x,
      t.0,
      t.1,
      at_i,
      ap (λ (z : ModelRouter × Option Selected). z.1)
            (get_model_endpoint_provider-known before model platform later known)
          ∙ ap (select_at (get_open_router_api_key before platform) later) place
          ∙ select_at-answer (get_open_router_api_key before platform) later (active_at i) x at_i
          ∙ ap (λ (key : Text). answer key x (active_at i))
              (same-keys mr before platform (after_calls-keys k mr model platform)),
    )
