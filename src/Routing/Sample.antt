-- ===== src/Routing/Sample.antt =====
-- A small configuration of internal/config/routing.go and the tables built from it.
use enchanted_proxy.Routing.Types.{
  ModelConfig, open_router, ProviderConfig, ModelRouterConfig, ModelRoute, FallbackConfig,
  ModelRouter, ModelEndpoint,
}
use enchanted_proxy.Prelude.{[], ◌∷◌, none, some, codes, text_key}

abbrev pub policy : FallbackConfig
policy = record {
  trigger = record { dwell_time = 60; query = codes "q" };
  recover = record { dwell_time = 0; query = codes "q" };
}

abbrev pub configured : ModelRouterConfig
configured = record {
  providers =
      record { name = codes "Near"; base_url = codes "near"; api_key = codes "k" }
      ∷ record { name = codes "Far"; base_url = codes "far"; api_key = [] }
      ∷ record { name = codes "OpenRouter"; base_url = codes "or"; api_key = [] }
      ∷ [];
  models =
      record {
        name = codes "glm";
        aliases = codes "GLM 5" ∷ [];
        token_multiplier = 300;
        providers =
            record {
              name = codes "Near";
              model = codes "n/glm";
              base_url = [];
              api_type = [];
              fallback = some policy;
            }
            ∷ record {
              name = codes "Far";
              model = [];
              base_url = [];
              api_type = [];
              fallback = none;
            }
            ∷ record {
              name = codes "OpenRouter";
              model = codes "z/glm";
              base_url = [];
              api_type = [];
              fallback = none;
            }
            ∷ [];
      }
      ∷ record {
        name = codes "*";
        aliases = [];
        token_multiplier = 100;
        providers =
            record {
              name = codes "Near";
              model = [];
              base_url = [];
              api_type = [];
              fallback = none;
            }
            ∷ [];
      }
      ∷ [];
}

abbrev pub empty_router : ModelRouter
empty_router = record {
  aliases = [];
  api_keys = (open_router, (codes "mobile", codes "m") ∷ []) ∷ [];
  routes = [];
}

abbrev pub near : ProviderConfig
near = record {
  base_url = codes "near";
  api_key = codes "k";
  name = codes "Near";
  model = codes "n/glm";
  api_type = [];
  token_multiplier = 300;
}

abbrev pub near_endpoint : ModelEndpoint
near_endpoint = record { provider = near; fallback = some policy }

abbrev pub open_endpoint : ModelEndpoint
open_endpoint = record {
  provider = record {
    base_url = codes "or";
    api_key = [];
    name = codes "OpenRouter";
    model = codes "z/glm";
    api_type = [];
    token_multiplier = 300;
  };
  fallback = none;
}

abbrev pub glm_route : ModelRoute
glm_route = record {
  active_endpoints = near_endpoint ∷ [];
  inactive_endpoints = open_endpoint ∷ [];
  round_robin_counter = 0;
}

abbrev pub any_endpoint : ModelEndpoint
any_endpoint = record {
  provider = record {
    base_url = codes "near";
    api_key = codes "k";
    name = codes "Near";
    model = codes "*";
    api_type = [];
    token_multiplier = 100;
  };
  fallback = none;
}

abbrev pub any_route : ModelRoute
any_route = record {
  active_endpoints = any_endpoint ∷ [];
  inactive_endpoints = [];
  round_robin_counter = 0;
}

abbrev pub built : ModelRouter
built = record empty_router {
  aliases = (codes "glm", codes "glm") ∷ (codes "glm 5", codes "glm") ∷ (codes "*", codes "*") ∷ [];
  routes = (codes "glm", glm_route) ∷ (codes "*", any_route) ∷ [];
}

abbrev pub glm_model : ModelConfig
glm_model = record {
  name = codes "glm";
  aliases = [];
  token_multiplier = 300;
  providers =
      record {
        name = codes "Near";
        model = codes "n/glm";
        base_url = [];
        api_type = [];
        fallback = some policy;
      }
      ∷ [];
}

abbrev pub far_model : ModelConfig
far_model = record glm_model {
  name = codes "far";
  providers =
      record { name = codes "Far"; model = []; base_url = []; api_type = []; fallback = none } ∷ [];
}
