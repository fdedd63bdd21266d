-- ===== src/Fallback/Table.antt =====
-- The whole step `refreshEndpoints` (internal/fallback/service.go): the routing table, the state of
-- the worker and the time of its next run.
use enchanted_proxy.Prelude.{
  ◌++◌, select, lookup-insert, tally, insert, any, ℕ, ◌+◌, ◌<◌, Bool, true, false, not, List, [],
  ◌∷◌, ◌≡◌, ◌≢◌, refl, sym, inl, inr, none, some, Text, text_eq, text_eq_iff, if◌then◌else◌, arith,
  Bool-cases, text_key,
}
use enchanted_proxy.Fallback.Endpoints.{
  flip_endpoints-foreign, is_foreign, is_ours, flip_endpoints-perm, endpoints,
}
use enchanted_proxy.Fallback.Counts.{
  flip_endpoints-ours_drained, flip_endpoints-ours_trigger, one_if,
  flip_endpoints-fallbacks_trigger, flip_endpoints-ours_recover, is_fallback,
}
use enchanted_proxy.Fallback.Worker.{
  dwell, QueryOutcome, refresh_endpoints, flip_endpoints, route_of, FallbackWorker, state_change,
  failed, shutdown, not_a_vector, vector,
}
use enchanted_proxy.Routing.Types.{FallbackStateConfig, ModelEndpoint, Routes, ModelRoute}
use mathlib.Core.List.{Perm}
use mathlib.Core.List.Perm

route_of-insert :
    (k j : Text) (r : ModelRoute) (m : Routes)
    → route_of j (insert k r m) ≡ (if text_eq k j then r else route_of j m)
route_of-insert k j r m = ground (arith, lookup-insert k j r m)

-- What a state change does to the route of a model: the worker's own is flipped, and any other is
-- left alone.
state_change-route :
    (interval now : ℕ) (w : FallbackWorker) (routes : Routes) (model : Text)
    → route_of model (state_change interval now w routes).routes ≡ (
        if text_eq w.model model
        then flip_endpoints (not w.triggered) w.provider (route_of model routes)
        else route_of model routes)
unfolding state_change
state_change-route interval now w routes model = ground (
  arith,
  route_of-insert w.model model
      (flip_endpoints (not w.triggered) w.provider (route_of w.model routes)) routes,
  text_eq_iff w.model model,
)

state_change-perm :
    (interval now : ℕ) (w : FallbackWorker) (routes : Routes) (model : Text)
    → Perm
        (endpoints (route_of model (state_change interval now w routes).routes))
        (endpoints (route_of model routes))
state_change-perm interval now w routes model = elim (Bool-cases (text_eq w.model model)) [
  | inl same ↦
      rw (state_change-route interval now w routes model, same)
        (flip_endpoints-perm (not w.triggered) w.provider (route_of model routes))
  | inr other ↦ rw (state_change-route interval now w routes model, other) (Perm.refl _)
]

-- Whatever the query returns, the endpoints of every model are the ones it had: each stays in the
-- table, active or inactive, exactly once.
pub refresh_endpoints-perm :
    (interval now : ℕ) (q : QueryOutcome) (w : FallbackWorker) (routes : Routes) (model : Text)
    → Perm
        (endpoints (route_of model (refresh_endpoints interval now q w routes).routes))
        (endpoints (route_of model routes))
unfolding refresh_endpoints
refresh_endpoints-perm interval now (vector (false ∷ _)) w routes model =
    state_change-perm interval now w routes model
refresh_endpoints-perm interval now (vector (true ∷ _)) w routes model = Perm.refl _
refresh_endpoints-perm interval now (vector []) w routes model = Perm.refl _
refresh_endpoints-perm interval now _ w routes model = Perm.refl _

-- A worker touches the route of its own model alone.
pub refresh_endpoints-other :
    (interval now : ℕ) (q : QueryOutcome) (w : FallbackWorker) (routes : Routes) (model : Text)
    → model ≢ w.model
    → route_of model (refresh_endpoints interval now q w routes).routes ≡ route_of model routes
unfolding refresh_endpoints
refresh_endpoints-other interval now (vector (false ∷ _)) w routes model h =
    elim (Bool-cases (text_eq w.model model)) [
      | inl same ↦ absurd (h (sym ((text_eq_iff w.model model).0 same)))
      | inr other ↦ rw (state_change-route interval now w routes model, other)
    ]
refresh_endpoints-other interval now (vector (true ∷ _)) w routes model h = refl
refresh_endpoints-other interval now (vector []) w routes model h = refl
refresh_endpoints-other interval now _ w routes model h = refl

-- No primary endpoint of another provider than the worker's changes its list, in any route: the active
-- ones stay active, in the same order.
pub refresh_endpoints-foreign :
    (interval now : ℕ) (q : QueryOutcome) (w : FallbackWorker) (routes : Routes) (model : Text)
    → select
        (is_foreign w.provider)
        (route_of model (refresh_endpoints interval now q w routes).routes).active_endpoints
      ≡ select (is_foreign w.provider) (route_of model routes).active_endpoints
unfolding refresh_endpoints
refresh_endpoints-foreign interval now (vector (false ∷ _)) w routes model =
    elim (Bool-cases (text_eq w.model model)) [
      | inl same ↦
          rw (state_change-route interval now w routes model, same)
            (flip_endpoints-foreign (not w.triggered) w.provider (route_of model routes))
      | inr other ↦ rw (state_change-route interval now w routes model, other)
    ]
refresh_endpoints-foreign interval now (vector (true ∷ _)) w routes model = refl
refresh_endpoints-foreign interval now (vector []) w routes model = refl
refresh_endpoints-foreign interval now _ w routes model = refl

-- Some endpoint is active.
abbrev pub IsServed : ModelRoute → Type 0
IsServed r = r.active_endpoints ≢ []

tally-ne-nil : (p : ModelEndpoint → Bool) (es : List ModelEndpoint) → 0 < tally p es → es ≢ []
tally-ne-nil p [] h e = absurd (omega arith)
tally-ne-nil p (x ∷ es) h e = cc

tally-any : (p : ModelEndpoint → Bool) (es : List ModelEndpoint) → any p es ≡ true → 0 < tally p es
tally-any p [] h = cc
tally-any p (x ∷ es) h = ground (arith, tally-any p es)

tally-one_if :
    (p : ModelEndpoint → Bool) (xs ys : List ModelEndpoint)
    → any p (xs ++ ys) ≡ true
    → 0 < tally p xs + one_if (any p ys)
tally-one_if p [] ys h = ground arith
tally-one_if p (x ∷ xs) ys h = ground (arith, tally-one_if p xs ys)

flip_endpoints-IsServed :
    (t : Bool) (p : Text) (r : ModelRoute)
    → any is_fallback (endpoints r) ≡ true
    → any (is_ours p) (endpoints r) ≡ true
    → IsServed (flip_endpoints t p r)
flip_endpoints-IsServed true p r f o = tally-ne-nil is_fallback _ (
    omega (
      arith,
      flip_endpoints-fallbacks_trigger p r,
      tally-one_if is_fallback r.active_endpoints r.inactive_endpoints f,
    ))
flip_endpoints-IsServed false p r f o =
    tally-ne-nil (is_ours p) _
      (omega (arith, flip_endpoints-ours_recover p r, tally-any (is_ours p) (endpoints r) o))

-- A route with a fallback endpoint and a primary endpoint of the worker's provider never loses its
-- last active endpoint by a refresh.
pub refresh_endpoints-IsServed :
    (interval now : ℕ) (q : QueryOutcome) (w : FallbackWorker) (routes : Routes)
    → any is_fallback (endpoints (route_of w.model routes)) ≡ true
    → any (is_ours w.provider) (endpoints (route_of w.model routes)) ≡ true
    → IsServed (route_of w.model routes)
    → IsServed (route_of w.model (refresh_endpoints interval now q w routes).routes)
unfolding refresh_endpoints
refresh_endpoints-IsServed interval now (vector (false ∷ _)) w routes f o s =
    rw (state_change-route interval now w routes w.model, (text_eq_iff w.model w.model).1 refl)
      (flip_endpoints-IsServed (not w.triggered) w.provider (route_of w.model routes) f o)
refresh_endpoints-IsServed interval now (vector (true ∷ _)) w routes f o s = s
refresh_endpoints-IsServed interval now (vector []) w routes f o s = s
refresh_endpoints-IsServed interval now _ w routes f o s = s

-- Where a worker keeps the primary endpoints of its provider: none is active while it is
-- triggered, and none is inactive otherwise.
abbrev pub Follows : FallbackWorker → Routes → Type 0
Follows w routes =
    let r = route_of w.model routes in
    tally (is_ours w.provider) (if w.triggered then r.active_endpoints else r.inactive_endpoints)
    ≡ 0

flip_endpoints-Follows :
    (t : Bool) (p : Text) (r : ModelRoute)
    → let r' = flip_endpoints t p r in
      tally (is_ours p) (if t then r'.active_endpoints else r'.inactive_endpoints) ≡ 0
flip_endpoints-Follows true p r = flip_endpoints-ours_trigger p r
flip_endpoints-Follows false p r = flip_endpoints-ours_drained p r

-- Every refresh keeps the worker's primary endpoints where its state says: a fallback event
-- deactivates all of them, a recovery activates all of them, and nothing else moves one.
pub refresh_endpoints-Follows :
    (interval now : ℕ) (q : QueryOutcome) (w : FallbackWorker) (routes : Routes)
    → Follows w routes
    → let r = refresh_endpoints interval now q w routes in Follows r.worker r.routes
unfolding refresh_endpoints
refresh_endpoints-Follows interval now (vector (false ∷ _)) w routes f =
    rw (state_change-route interval now w routes w.model, (text_eq_iff w.model w.model).1 refl)
      (flip_endpoints-Follows (not w.triggered) w.provider (route_of w.model routes))
refresh_endpoints-Follows interval now (vector (true ∷ _)) w routes f = f
refresh_endpoints-Follows interval now (vector []) w routes f = f
refresh_endpoints-Follows interval now _ w routes f = f

-- An empty result and a sample below 1 change nothing; a failed query neither.
abbrev pub is_quiet : QueryOutcome → Bool
is_quiet (vector (false ∷ _)) = false
is_quiet _ = true

abbrev pub ends : QueryOutcome → Bool
ends shutdown = true
ends not_a_vector = true
ends _ = false

abbrev pub phase : FallbackWorker → FallbackStateConfig
phase w = if w.triggered then w.config.recover else w.config.trigger

-- The state turns exactly on a sample that is not below 1, and then the worker sleeps for the dwell
-- time of the event, or for the interval if there is none; it ends exactly on a shutdown and on a
-- result that is no vector, and in all other cases it runs again after the interval.
pub refresh_endpoints-timing :
    (interval now : ℕ) (q : QueryOutcome) (w : FallbackWorker) (routes : Routes)
    → let r = refresh_endpoints interval now q w routes in
      (r.worker.triggered ≡ (if is_quiet q then w.triggered else not w.triggered))
      × (r.next_run ≡ (
          if ends q
          then none
          else some (now + (if is_quiet q then interval else dwell interval (phase w)))))
unfolding refresh_endpoints
refresh_endpoints-timing interval now (vector (false ∷ _)) w routes = ground arith
refresh_endpoints-timing interval now (vector (true ∷ _)) w routes = ground arith
refresh_endpoints-timing interval now (vector []) w routes = ground arith
refresh_endpoints-timing interval now failed w routes = ground arith
refresh_endpoints-timing interval now _ w routes = ground arith
