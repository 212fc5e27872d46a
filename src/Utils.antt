-- ===== src/Utils.antt =====
-- Parts of utils/dns.go: EDNS options, address records, least TTL.
pub mod Loops
pub mod Ecs
pub mod Records
mod DefaultEcs
mod MinTtl
mod Tests
