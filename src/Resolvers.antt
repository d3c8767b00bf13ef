-- ===== src/Resolvers.antt =====
-- The two resolvers of human readable names that come with the parser of payment instructions.
pub mod Http
pub mod Onion
