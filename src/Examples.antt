-- ===== src/Examples.antt =====
-- Tests: the theorems applied to concrete values, and the values they share.
mod Lifecycles
mod Network
mod Storage
mod Enrolled
mod Requests
mod Scopes
mod Tokens
mod Data
