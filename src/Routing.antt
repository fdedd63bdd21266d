-- ===== src/Routing.antt =====
-- internal/routing/model_router.go: the routing table and the choice of an endpoint for a model.
-- `Types` has the data, `Validate` the validation of a configuration (internal/config/routing.go),
-- `Build` the construction of the table, `Select` the choice of an endpoint, `Route` the routing of a
-- request; `Described` reads the configuration as a description of routes; `Table`,
-- `Configured`, `Choice`, `RoundRobin` and `Requests` have what is proved,
-- `Sample` a configuration for the tests.
pub mod Types
pub mod Build
pub mod Select
pub mod Route
pub mod Validate
pub mod Table
pub mod Described
pub mod Configured
pub mod Choice
pub mod RoundRobin
pub mod Requests
mod Sample
mod Tests
