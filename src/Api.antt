-- ===== src/Api.antt =====
-- The API types under apis/, and the interfaces of crossplane-runtime that speak of them.
pub mod Kinds
pub mod Parameters
pub mod Cluster
pub mod InitBundle
pub mod ProviderConfig
pub mod Managed
