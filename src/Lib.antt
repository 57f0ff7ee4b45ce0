-- ===== src/Lib.antt =====
-- The Zentora backend (a shop's API server in Go), modelled with the theorems that make it correct.
--
-- The program. HTTP handlers call services (internal/service), which validate requests and work over
-- repositories (internal/repository/postgres) whose SQL runs in transactions. Stock is kept per
-- variant and location: what is available, what is reserved for orders and what is incoming. An order
-- reserves its lines and writes its rows in one transaction; a checkout may take its lines from the
-- user's active cart. Discovery serves product feeds, through Redis, with fallbacks. The merchant
-- feed pages through the catalog and emits items for Google. A login checks a limit in Redis and the
-- password, signs an access and a refresh token and stores a session in Redis and the database; every
-- request's token is validated against a blacklist and its session, and then passes the guards on
-- roles. A hub pushes messages to the WebSocket clients that subscribe to their channels.
--
-- The files.
--   Prelude        shared names, Boolean tests, lists by native length, int64 (Prelude.Int) and the
--                  interface of float64 (Prelude.Floats), of which no law is assumed.
--   Text           Go strings as code points with the functions of package strings, and decimals.
--   Inventory      internal/repository/postgres/inventory_repo.go: the table is the list of rows of
--                  inventory_items, a statement a function from table to table or an error. A Database
--                  says which statements it refuses, and when a transaction cannot begin or commit.
--                  Inventory.Service is internal/service/catalog/inventory.go with runs of its calls.
--   Delivery       internal/domain/delivery/delivery.go, of which an order keeps a snapshot;
--                  Delivery.Repository is internal/repository/postgres/delivery.go.
--   Order          internal/domain/order; Order.Create is createOrderFromItems of
--                  internal/service/order/service.go and createTx of
--                  internal/repository/postgres/order.go over a Store of stock and orders, with what
--                  the transaction meets in an Env; Order.Checkout is CreateGuestOrder,
--                  CreateUserOrder, resolveShippingForUser and UpdateOrderStatus.
--                  Order.Checkout.Retired runs CreateUserOrder over the cart repository of Carts.
--   Discovery      internal/domain/discovery/types.go (the requests and Validate), and
--                  Discovery.Feed, internal/service/discovery/service.go.
--   Merchant       internal/merchant/domain/merchant_domain.go; Merchant.Normalise and
--                  Merchant.Generator are internal/merchant/application/feedgen/generator.go.
--   Discount       ValidateAndRedeem of internal/service/catalog/discount.go over
--                  internal/repository/postgres/discount_repo.go, one after the other and interleaved.
--   Access         internal/middleware/auth_middleware.go and helpers.go: the guards as functions of
--                  gin's context, an association list.
--   Carts          internal/repository/postgres/cart.go and internal/service/cart/service.go;
--                  Carts.Lines is the view of the carts as a function.
--   Redis          what is used of Redis: an interface with the laws of its documentation, and
--                  Redis.Instance, a server in memory that keeps them.
--   Limits         internal/pkg/session/redis_store.go; Limits.Windows has the fixed windows that the
--                  limits are meant to be, for checkLimit, which no other file calls; the limits in
--                  use count their attempts by the same two commands.
--   Tokens         internal/pkg/jwt: claims.go, generator.go and verifier.go; Tokens.Instance is a signer
--                  that keeps the laws of signing. Of a token's extra data only texts and Booleans are
--                  taken to come back from JSON as they were: numbers and lists change their types.
--   Sessions       the table auth_sessions of internal/repository/postgres/auth_repo.go;
--                  Sessions.Manager is internal/pkg/session/manager.go. What a call leaves to a
--                  goroutine it returns as a task; the two commands of UpdateSessionActivity are also
--                  functions of their own, so that others can run between them.
--   Accounts       identities, providers and profiles of auth_repo.go; Accounts.Permissions is
--                  GetUserRoles and GetUserPermissions over their tables,
--                  Accounts.Verifications the tokens that are sent by mail.
--   Auth           internal/service/auth/auth.go: Auth.Login, Auth.Logout with ValidateToken and what
--                  revokes sessions, and Auth.Recovery, which resets passwords and verifies addresses.
--   Hub            internal/websocket/hub.go and client.go: client objects in a list, with an outcome
--                  that is a result, a panic, or never.
--
-- State and errors. State is passed explicitly; an error is a value of the component's own Result. A
-- deferred rollback is the state of before. The order's transaction (Tx of Order.Create) keeps what is
-- committed apart from what its own statements have written, and each statement says where it runs. Pointers are options, and nil requests are `none`. Which
-- commands of Redis or of the database fail is an argument of a call, by kind of command. The times of
-- Redis, sessions and tokens are in seconds, and a call runs at one time.
-- Numbers: int and int64 are integers; where a sum or a difference could leave the range of int64 the
-- wrap-around is written out or the row's column type refuses it (the Database's refusal).
--
-- Fuel. The generator's loop runs on fuel, one more than the greatest variant id, which is enough
-- when the pages advance. Decimals are printed on fuel one more than
-- the number, since a digit at least is taken off in each round.
-- Every other loop is structural recursion.
--
-- Parameters, for code that is not read here: the database's refusals, its sequences and clock, the
-- SQL behind the discovery and merchant repositories, Redis (for the feed's cache with its JSON),
-- float64, golang-jwt's signing and parsing, bcrypt, LOWER of SQL, ulid's identifiers, ValidateToken
-- where the middleware calls it, strings.ToLower, strings.EqualFold and strconv.FormatFloat. In the
-- sessions a value's JSON stands for the value itself.
--
-- Not modelled: HTTP handlers, mail, the reading of keys, registration, the deadlines of the WebSocket
-- pumps, the product cards of cart items, the catalog's editing, jobs, configuration, and SQL that only
-- reads. Strings that are no valid UTF-8 have no counterpart.
pub mod Access
pub mod Accounts
pub mod Auth
pub mod Carts
pub mod Delivery
pub mod Discount
pub mod Discovery
pub mod Hub
pub mod Inventory
pub mod Limits
pub mod Merchant
pub mod Order
pub mod Prelude
pub mod Redis
pub mod Sessions
pub mod Text
pub mod Tokens
