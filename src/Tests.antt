-- ===== src/Tests.antt =====
-- Applications of the theorems at concrete inputs, and the runs they exercise.
mod Budgets
mod Messages
mod Assemblies
mod Retrievals
mod Registries
mod Passthroughs
mod Conversations
mod Workers
mod Imperators
mod Searches
mod Sessions
mod Upgrades
mod Facts
mod Enrichments
mod Embeddings
