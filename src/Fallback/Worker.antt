-- ===== src/Fallback/Worker.antt =====
-- `fallbackWorker.refreshEndpoints` of internal/fallback/service.go. The Prometheus query is a
-- parameter: its outcome is an argument. The mutex makes the refresh of the table one step.
use enchanted_proxy.Prelude.{
  ℕ, ◌+◌, Bool, true, false, not, ◌&&◌, List, [], ◌∷◌, ◌++◌, Option, none, some, Text, text_eq,
  if◌then◌else◌, ltb, lookup, insert, text_key,
}
use enchanted_proxy.Routing.Types.{
  FallbackConfig, FallbackStateConfig, ModelEndpoint, ModelRoute, is_primary, Routes,
}

pub record FallbackWorker : Type 0 where
  pub model : Text
  pub provider : Text
  pub config : FallbackConfig
  pub triggered : Bool

-- Of a sample the code reads only whether its value is below 1.
pub data QueryOutcome : Type 0 where
  failed : QueryOutcome
  shutdown : QueryOutcome
  not_a_vector : QueryOutcome
  vector : List Bool → QueryOutcome

-- What a pass over a list has collected: both new lists, and whether a fallback endpoint moved.
pub record Sorted : Type 0 where
  pub active : List ModelEndpoint
  pub inactive : List ModelEndpoint
  pub flipped : Bool

abbrev pub to_active : Sorted → ModelEndpoint → Sorted
to_active s e = record s { active = s.active ++ e ∷ [] }

abbrev pub to_inactive : Sorted → ModelEndpoint → Sorted
to_inactive s e = record s { inactive = s.inactive ++ e ∷ [] }

-- The body of the loop over the active endpoints.
unfoldable pub sort_active : Bool → Text → Sorted → ModelEndpoint → Sorted
sort_active triggered provider s e =
    if not (is_primary e) && not triggered && not s.flipped
    then record (to_inactive s e) { flipped = true }
    else if is_primary e && triggered && text_eq e.provider.name provider
    then to_inactive s e
    else to_active s e

-- The body of the loop over the inactive endpoints.
unfoldable pub sort_inactive : Bool → Text → Sorted → ModelEndpoint → Sorted
sort_inactive triggered provider s e =
    if not (is_primary e) && triggered && not s.flipped
    then record (to_active s e) { flipped = true }
    else if is_primary e && not triggered && text_eq e.provider.name provider
    then to_active s e
    else to_inactive s e

abbrev pub each : (Sorted → ModelEndpoint → Sorted) → Sorted → List ModelEndpoint → Sorted
each body s [] = s
each body s (e ∷ es) = each body (body s e) es

abbrev pub start : Sorted
start = record { active = []; inactive = []; flipped = false }

unfoldable pub flip_endpoints : Bool → Text → ModelRoute → ModelRoute
flip_endpoints triggered provider route =
    let s = each (sort_active triggered provider) start route.active_endpoints in
    let t =
      each (sort_inactive triggered provider) (record s { flipped = false })
        route.inactive_endpoints in
    record route { active_endpoints = t.active; inactive_endpoints = t.inactive }

-- The route of a model that the table lacks is the zero value.
abbrev pub route_of : Text → Routes → ModelRoute
route_of model routes = elim (lookup model routes) [
  | none ↦ record { active_endpoints = []; inactive_endpoints = []; round_robin_counter = 0 }
  | some route ↦ route
]

abbrev pub dwell : ℕ → FallbackStateConfig → ℕ
dwell interval c = if ltb 0 c.dwell_time then c.dwell_time else interval

-- The new worker, the new table, and the time of the next run; with `none` the worker ends.
pub record Refreshed : Type 0 where
  pub worker : FallbackWorker
  pub routes : Routes
  pub next_run : Option ℕ

unfoldable pub state_change : ℕ → ℕ → FallbackWorker → Routes → Refreshed
unfolding flip_endpoints
state_change interval now w routes =
    let phase = if w.triggered then w.config.recover else w.config.trigger in
    record {
      worker = record w { triggered = not w.triggered };
      routes =
          insert w.model (flip_endpoints (not w.triggered) w.provider (route_of w.model routes))
            routes;
      next_run = some (now + dwell interval phase);
    }

unfoldable pub refresh_endpoints : ℕ → ℕ → QueryOutcome → FallbackWorker → Routes → Refreshed
unfolding state_change
refresh_endpoints interval now failed w routes = record {
  worker = w;
  routes = routes;
  next_run = some (now + interval);
}
refresh_endpoints interval now shutdown w routes = record {
  worker = w;
  routes = routes;
  next_run = none;
}
refresh_endpoints interval now not_a_vector w routes = record {
  worker = w;
  routes = routes;
  next_run = none;
}
refresh_endpoints interval now (vector []) w routes = record {
  worker = w;
  routes = routes;
  next_run = some (now + interval);
}
refresh_endpoints interval now (vector (below_one ∷ _)) w routes =
    if below_one
    then record { worker = w; routes = routes; next_run = some (now + interval) }
    else state_change interval now w routes
