-- ===== src/Language.antt =====
-- `src/droidos/language`: users and their roles, the registry of tools, the command broker, the offline
-- parser, the providers of intents, and the language service.
pub mod Auth
pub mod Tools
pub mod Broker
pub mod Offline
pub mod Objects
pub mod Providers
pub mod Personality
pub mod Service
