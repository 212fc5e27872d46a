-- ===== src/Outbound.antt =====
-- outbound/: groups of upstream servers (groups.go) and their callers (caller.go).
pub mod Hijack
pub mod CallerStats
pub mod Queries
pub mod Durations
pub mod Addresses
pub mod Builds
pub mod DohCaller
pub mod Worker
pub mod GfwList
pub mod DnsCaller
