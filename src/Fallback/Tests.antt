-- ===== src/Fallback/Tests.antt =====
-- Runs of the fallback worker on a table of one model.
use enchanted_proxy.Fallback.Table.{refresh_endpoints-perm, refresh_endpoints-IsServed, IsServed}
use enchanted_proxy.Fallback.Endpoints.{endpoints}
use enchanted_proxy.Routing.Types.{ModelEndpoint, Routes, ProviderConfig, FallbackConfig}
use enchanted_proxy.Fallback.Worker.{
  sort_inactive, sort_active, flip_endpoints, vector, state_change, FallbackWorker,
  refresh_endpoints, route_of,
}
use mathlib.Core.List.{Perm}
use enchanted_proxy.Prelude.{true, false, [], ◌∷◌, ◌≡◌, refl, none, some, Text, codes}

abbrev provider_of : Text → ProviderConfig
provider_of name = record {
  base_url = [];
  api_key = codes "k";
  name = name;
  model = codes "m";
  api_type = [];
  token_multiplier = 100;
}

abbrev policy : FallbackConfig
policy = record {
  trigger = record { dwell_time = 60; query = codes "q" };
  recover = record { dwell_time = 0; query = codes "q" };
}

abbrev primary_of : Text → ModelEndpoint
primary_of name = record { provider = provider_of name; fallback = some policy }

abbrev fallback_of : Text → ModelEndpoint
fallback_of name = record { provider = provider_of name; fallback = none }

abbrev normal : Routes
normal =
    (
      codes "m",
      record {
        active_endpoints = primary_of (codes "A") ∷ primary_of (codes "B") ∷ [];
        inactive_endpoints = fallback_of (codes "C") ∷ fallback_of (codes "D") ∷ [];
        round_robin_counter = 0;
      },
    )
    ∷ []

abbrev overloaded : Routes
overloaded =
    (
      codes "m",
      record {
        active_endpoints = primary_of (codes "B") ∷ fallback_of (codes "C") ∷ [];
        inactive_endpoints = primary_of (codes "A") ∷ fallback_of (codes "D") ∷ [];
        round_robin_counter = 0;
      },
    )
    ∷ []

abbrev worker : FallbackWorker
worker = record { model = codes "m"; provider = codes "A"; config = policy; triggered = false }

refresh-triggers : refresh_endpoints 30 100 (vector (false ∷ [])) worker normal ≡ record {
  worker = record worker { triggered = true };
  routes = overloaded;
  next_run = some 160;
}
unfolding refresh_endpoints state_change flip_endpoints sort_active sort_inactive
refresh-triggers = refl

refresh_endpoints-perm_example :
    Perm
      (endpoints (
        route_of (codes "m") (refresh_endpoints 30 100 (vector (false ∷ [])) worker normal).routes))
      (endpoints (route_of (codes "m") normal))
refresh_endpoints-perm_example =
    refresh_endpoints-perm 30 100 (vector (false ∷ [])) worker normal (codes "m")

refresh_endpoints-IsServed_example :
    IsServed
      (route_of worker.model (refresh_endpoints 30 100 (vector (false ∷ [])) worker normal).routes)
refresh_endpoints-IsServed_example =
    refresh_endpoints-IsServed 30 100 (vector (false ∷ [])) worker normal refl refl (λ z. cc)
