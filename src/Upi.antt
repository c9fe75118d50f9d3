-- ===== src/Upi.antt =====
-- internal/crawler/upi: the UPI aggregator and what it is made of.
pub mod Suffix
pub mod Split
pub mod Model
pub mod Aggregate
pub mod VerifiedNames
pub mod Format
pub mod Response
pub mod Source
pub mod Sample
pub mod Plan
pub mod Engine
pub mod Run
