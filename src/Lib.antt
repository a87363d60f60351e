-- ===== src/Lib.antt =====
-- Bittuly, a URL shortener: its web client, web/src, and the services behind it, services and
-- libs/shared.
--
-- The client is a React application. Its session (web/src/context/AuthContext.tsx) knows who is
-- signed in and keeps the user's id in `localStorage`; its router (web/src/router) shows a page for
-- a path and guards the private ones with the session; a page has its own state, calls the server
-- through web/src/api and acts on the session, on the router and on toasts. The theme provider
-- (web/src/components/theme-provider.tsx) keeps the colours of the document.
--
-- A component is a state, a type of events and a function `update`: an event is what the user does,
-- a timer that fires or the end of a call, and `update` gives the state after the handler and the
-- list of its effects (Web/Effect), which are the calls, timers, toasts and navigation that the
-- source makes, in its order. A handler that awaits a call is two events, so that any other may come
-- between them; `run` takes several events. What a component shows is an element tree (Web/View).
-- The views leave out constant class names and elements that only lay out others; a class that the
-- state chooses is kept. A component of web/src/components/ui, a copy of a component library, is a
-- tag that is not opened.
--
-- - Prelude: names of the libraries passed on, Boolean tests, lists over native numbers, and the
--   source's operations on text. Samples: data for the tests.
-- - Web/View, Web/Effect, Web/Storage, Web/Host: element trees, effects, `localStorage`, and the
--   platform (floating point, dates, URL parser, letter case) as a parameter without laws.
-- - Api/Client, Api/Auth, Api/Urls, Api/Health: web/src/api/client.ts, auth.ts, urls.ts, health.ts.
-- - Session: web/src/context/AuthContext.tsx. Router: web/src/router/AppRouter.tsx and
--   ProtectedRoute.tsx.
-- - Components/Theme, UrlItem, Layout, Initials: web/src/components/theme-provider.tsx (with App.tsx's
--   props), UrlItem.tsx, the frame (AppSidebar.tsx, TopBar.tsx, AppLayout.tsx, mode-toggle.tsx and
--   web/src/pages/Unavailable.tsx), and their `getInitials`.
-- - Pages/Dashboard, Insights, Login, Signup, VerifyOtp, Settings, Profile, Health: the file of that
--   name in web/src/pages. `handleX` is `handle_x`, and what follows its `await` is `x_done`.
--
-- The services stand under Server. url-service keeps the links: a handler takes the state of the
-- service, which has the tables of a primary and of a read replica, Redis, the cache in memory
-- and the tasks that were spawned, to the next state and a response. What runs between the
-- requests (a task, replication, an eviction, a failure, a restart) is an event of its own, so
-- that a run has all orders of them. consumer-service takes the clicks and the deleted users from
-- their queues, with the broker's part of acknowledging and requeueing; auth-service keeps the
-- users, and the layer `jwt_auth` of libs/shared stands before the requests of a signed-in user.
-- Times, random draws and whether a server answers are arguments. A handler is one step, also
-- where it awaits, and the replica takes over what the primary then has. Wire joins the client's
-- dashboard with the routes of url-service.
--
-- - Server/Urls: services/url-service/src/models.rs. Urls/Repository: repository.rs. Urls/Handlers:
--   handlers.rs, where `redirect_url` is its `get_original_url`. Urls/Routes: routes.rs, health.rs and
--   the normalising of paths in main.rs. Urls/System: runs of the service.
-- - Server/Clicks, Clicks/Broker, Cleanup: the two loops of services/consumer-service/src/main.rs.
-- - Server/Jwt, Jwt/Contents: libs/shared/src/jwt.rs. Server/Accounts, Accounts/Handlers,
--   Accounts/Routes: models.rs, repository.rs, services.rs, handlers.rs, routes.rs and health.rs of
--   services/auth-service/src.
-- - Server/Wire: web/src/api/urls.ts against the routes. Server/Numbers, Server/Text: what these use
--   of the standard library of Rust on numbers and text. Urls/System, Clicks/Broker and Cleanup/Retries
--   put what these components meet around them: other requests, the broker and its queues.
--
-- Packages are parameters: base62, `ILIKE`, the checks of URLs and emails, the printing of dates,
-- password hashing, UUIDs and the signing of tokens. Theorems that need it assume that base62 gives
-- two ids two codes (IsInjective), that a hashed password is verified (IsHasher) and that a token of
-- a JSON object decodes, until a minute after its expiry, to what the object deserialises to
-- (IsSigning).
--
-- Laws and modules named for what they prove stand under the module that they are about, and the
-- theorems at concrete inputs in Tests beside them.
--
-- Bounds: ids, click counts and seconds are natural numbers, which the source's doubles hold exactly
-- up to 2 ^ 53. All recursion is on the structure of lists and texts, but for the digits of a number
-- (Prelude/Text, `show`), which has as fuel the number and one more: each round divides by ten, and
-- Prelude/Text/Digits reads the digits back to the number; the hex digits of a cursor (Server/Numbers)
-- are printed in the same way, Server/Numbers/RoundTrip. Ids of links are kept below 2 ^ 63 by the
-- insertion, click counts are natural numbers, and a client that follows cursors has fuel for one
-- more page than there are links (Server/Urls/Pages).
--
-- Not modelled: the throws of `useAuth` and `useTheme` outside their providers,
-- web/src/components/ui with its hook web/src/hooks/use-mobile.ts and web/src/lib/utils.ts, and
-- the entry web/src/main.tsx. Unmounting a page is modelled where the source handles it
-- (Insights). Of the services: connections, configuration, SMTP, metrics and tracing, the route
-- for tests of auth-service in development mode, the bodies of errors, the capacity of the cache
-- in memory but for an eviction as an event, HEAD requests and percent-decoding. A click that is
-- published is taken to reach the queue. Deployment files and load tests are left out.
pub mod Prelude
pub mod Samples
pub mod Api
pub mod Web
pub mod Server
pub mod Session
pub mod Components
pub mod Pages
pub mod Router
