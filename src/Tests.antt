-- ===== src/Tests.antt =====
-- Runs of the models on concrete inputs, and the theorems at inputs that meet their hypotheses.
mod Values
mod Chunking
mod Graph
mod Store
mod Accounts
mod Memory
mod Chat
mod Documents
mod Server
