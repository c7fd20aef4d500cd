-- ===== src/Tests.antt =====
-- The handlers and the stores on concrete inputs.
mod Fixtures
mod Requests
mod Stores
mod Accounts
mod Flows
mod Server
