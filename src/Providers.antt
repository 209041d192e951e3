-- ===== src/Providers.antt =====
-- The routing of requests to models: src/providers/registry.ts.
pub mod Bindings
pub mod Auto
pub mod Routing
pub mod Next
pub mod Messages
pub mod Turns
pub mod Run
pub mod Model
pub mod Hoare
pub mod Rules
pub mod Registered
pub mod Search
pub mod Fuel
pub mod Answers
pub mod Ranking
pub mod Choice
pub mod Stream
pub mod OneSource
pub mod StreamRuns
pub mod Safety
pub mod Rounds
pub mod Tests
