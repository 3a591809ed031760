-- ===== src/Tests.antt =====
-- The properties at concrete inputs.
mod Queue
mod Json
mod Watch
mod Session
mod Zba
mod Observer
mod Feed
mod Scanner
mod Vault
mod Quarantine
mod Status
mod Roundtrip
