-- ===== src/Lib.antt =====
-- fake-auth: a mock of an OAuth 2.0 / OpenID Connect provider in Go, one process with an SQLite
-- database and in-memory stores. This library models its stores, its tokens, its HTTP handlers and
-- their routing.
--
-- Base, Text, Dict, Json and Table are shared: tests on numbers, the functions of Go's strings
-- package, Go's maps as association lists, values of encoding/json, and SQL statements on lists of
-- rows. The other modules follow the program:
--   Pkce        internal/pkce/pkce.go: VerifyS256, VerifyPlain, Verify
--   Clients     internal/clients/config.go: the registry and its four validations
--   Sessions    internal/sessions/sessions.go: Create, Get, Revoke
--   Grants      internal/grants/store.go: codes, refresh tokens and device codes
--   Token       internal/token/jwt.go: Issue, IssueIDToken, Validate
--   Rules       internal/rules/runner.go: Run, runRule and the maps that scripts see
--   Database    internal/store/sqlite.go, store.go: users, role assignments, blocks; Listing, Updates,
--               Roles, Applications (clients, connections, logs) and Seed
--   Audit       internal/audit/audit.go: the events
--   Web         the requests and bodies as net/http and encoding/json hand them over
--   Handlers    internal/handlers/handlers.go: handleToken with its grants (CodeExchange, Refresh,
--               DeviceToken, Password), handleRevoke and handleIntrospect (Endpoint), the pages
--               (SignIn, Authorize, Implicit, Login, Logout, DeviceGrant, Signup), userinfo,
--               tokeninfo and discovery (Profile), the management API (Api), ServeHTTP (Serve)
-- A method of a store is a function from its arguments and the store to the new store and the
-- results. As each method holds the store's mutex throughout, calls of several requests interleave
-- as whole steps, and Grants/History and Sessions/Invariant run lists of them. A handler is a
-- function from the server's state and the request to the new state and the response; it calls the
-- stores the way handlers.go does, and a child module holds what is known of each handler.
--
-- Instants are numbers of nanoseconds. Every reading of the clock, every UUID and every error of
-- the database engine is an argument, one for each use, so that a theorem covers every order in
-- which the readings can come out. Loops are structural recursion on lists and texts, so nothing
-- takes fuel. Go's int wraps around at 2^63 where a request sets the factors of a product, in the
-- paging of users; elsewhere int and time.Duration are unbounded: no lifetime comes near 2^63.
--
-- Parameters stand for what the program takes from elsewhere: JWT signing and parsing, which reads
-- the clock, bcrypt, SHA-256, encoding/json, net/url, the character tables of package unicode, the
-- JavaScript interpreter and the file system. Text is a sequence of characters where Go has bytes.
--
-- Where a handler can panic, its result is an option: net/http drops the connection and the server
-- goes on with the state as it was then.
--
-- Not modelled: the start of the program and its environment variables, the generation of keys,
-- opening the database, the registration of the metrics (the handlers record each increment and
-- each audit event in their state), and response headers, the session cookie apart.
pub mod Audit
pub mod Base
pub mod Text
pub mod Dict
pub mod Pkce
pub mod Clients
pub mod Sessions
pub mod Grants
pub mod Json
pub mod Token
pub mod Web
pub mod Table
pub mod Database
pub mod Rules
pub mod Handlers
pub mod Tests
