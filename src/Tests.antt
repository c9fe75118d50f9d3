-- ===== src/Tests.antt =====
-- Witnesses: each applies a theorem to concrete data for which its hypotheses hold.
mod Data
mod Phones
mod Requests
mod Pools
mod Caches
mod Values
mod Config
mod Responses
mod Features
mod Sections
mod Enrich
