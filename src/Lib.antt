-- ===== src/Lib.antt =====
-- antrea-ui backend: a verification library for the Go server.
--
-- The server is a web backend for a Kubernetes cluster. A user logs in with the admin password, an
-- OIDC provider, a kubeconfig or a token; the server keeps the credential in a session, gives the
-- browser a cookie that names the session, and calls Kubernetes with the session's credential. A
-- script may send a bearer token instead. These parts are modelled:
--
-- - Session (pkg/auth/session/session.go, store.go): the session store. `create`, `get`,
--   `delete_session`, `peek` and `do_gc` are Create, Get, Delete, Peek and doGC; `maybe_refresh` and
--   `apply_refresh` are the refresh of a credential; `enforce_per_user_limit_locked` and
--   `evict_one_expired_locked` make room; `session_zero` and `credential_zero` erase key material;
--   `transport_for` caches round trippers. Session.Types holds the data, Session.Memory the heap,
--   Session.Store and Session.Get the operations, Session.Run histories of calls.
-- - Authn (pkg/server/authn/authn.go, bearer.go; pkg/server/utils/cookie/cookie.go;
--   pkg/auth/session/context.go): `resolve` is Resolve, which goes through `check_cross_origin`, the
--   session store and the cache of bearer tokens (`validate`); `safe_redirect_url` is
--   SafeRedirectURL; Authn.Identity is RequestAuth with KeepAlive and Invalidate.
-- - Password (pkg/password/store.go, readwriter/in_memory.go, readwriter/k8s.go;
--   pkg/server/api/account.go): the store of the admin password over a backend, the two backends, and
--   the endpoint that changes the password.
-- - Plugins (pkg/plugins/registry.go, pkg/server/api/plugins.go): the registry of frontend plugins,
--   which follows ConfigMaps, and the endpoint of their files.
-- - Credentials (pkg/k8s/credentials.go): which kubeconfigs and tokens a login accepts. The review of a
--   credential by the API server, ValidateCredential of the same file, is Login.Review.
-- - Login (pkg/server/auth.go, the configuration in pkg/server/server.go): `create_session` is
--   createSession, `serve_login` the three login endpoints, `logout` and `session` are Logout and
--   Session, and `auth_routes` with `run_chain` the chains of handlers in front of them. It composes
--   Session's `create` and `delete_session`, Authn's gate and cookies, Password and Credentials.
-- - Oidc (pkg/server/oauth2.go, pkg/server/utils/template/template.go): the provider, the signed state
--   (`get_oauth2_state`, `parse_oauth2_state`), `oauth2_login` and `oauth2_callback`, the discovery
--   loop (`init_provider`) and the refresher. It logs in through Login's `create_session`.
-- - Upstream (pkg/handlers/k8sproxy/handler.go, pkg/server/api/k8s.go, k8s_errors.go): the headers that
--   reach the API server (`rewrite`), what its answers do to the session (`modify_response`,
--   `k8s_error`, through Authn.Identity's `invalidate`), and GetK8s over both (`get_k8s`), whose
--   transport comes from AntreaSvc's factory.
-- - Access (pkg/handlers/access/handler.go, pkg/server/api/access.go): the namespaces of a user from
--   RoleBindings, the watch over the probe namespace, and the access summary.
-- - Flows (pkg/handlers/flowstream/handler.go, grpc.go, apis/v1/flow.go): the filter of a stream
--   (`parse_flow_stream_filter`), the subscriber over the FlowAggregator's answers (`subscribe`), and
--   the handler (`stream_flows`), whose select is a sequence of choices in any order. A tick goes
--   through Authn's `keep_alive`; other requests may change the session store between two choices.
-- - Settings (pkg/config/server/config.go, pkg/server/api/frontend_settings.go): the configuration, its
--   validation (`validate_config`), and what NewServer, the session store of cmd/server/main.go and
--   the frontend take from it (`server_config`, `session_options`, `build_frontend_settings`).
-- - AntreaSvc (pkg/handlers/antreasvc/client.go, handler.go, pkg/k8s/factory.go,
--   pkg/server/api/featuregates.go): the factory of transports (`factory_transport_for` is
--   ClientFactory.TransportFor), its replacement when the CA bundle changes, the requests to the Antrea
--   Service (`request`, which ends the session through Authn.Identity's `invalidate`), and the endpoint
--   of the feature gates.
-- - Traceflow (pkg/handlers/traceflow/handler.go, pkg/server/api/traceflow.go): the objects, the
--   endpoints that create, poll and delete them, and the collection of old ones (Traceflow.Handler's
--   `do_gc`). The client of a request comes from AntreaSvc's factory, errors from Upstream.
-- - RateLimit (pkg/server/ratelimit/config.go, client.go, global.go, middleware.go): the format of a
--   rate, the limiters, whose addresses the LRU cache holds, and the key by which a client is counted.
-- - Api (pkg/server/api/server.go and the Add...Routes functions beside it, AddRoutes of
--   pkg/server/server.go): the routes with the handlers in front of their endpoints (`server_routes`),
--   and how such a chain runs (`run_handlers`, with Authn's `resolve` as the middleware).
-- - Startup (cmd/server/main.go, pkg/env/env.go, pkg/k8s/client.go, New and NewFromServerConfig of
--   pkg/server/authn/authn.go): `run` sets the parts up in the order of the code and stops at the first
--   error; `flow_tls` are the TLS settings of the FlowAggregator. It initializes Password's store over
--   the Secret, makes Oidc's provider and waits for its discovery, and makes AntreaSvc's factory and
--   handler. Its result has the configuration that Login's routes take and, by `api_server`, what
--   Api's routes take.
-- - System: the session store under the whole server. A step (`ServerStep`) is what an endpoint, a call
--   of Kubernetes or of the Antrea Service in flight, a tick of a stream or a collection does to it; a
--   history (`Reaches`) is any sequence of steps. System.Composed and System.Calls take
--   the endpoints that wait for an answer apart into such steps.
-- - Base: slices, maps, sorting and texts of the Go language and its standard library.
--
-- How the code is modelled. A `*Session` and a byte slice are addresses into a heap, since Get hands
-- out the object that the store erases later: what a request still holds and what the store has erased
-- are the same object. State is passed explicitly, and an operation under a lock is one step; where
-- the code unlocks in between, as in the refresh, the clock readings are separate arguments. A map is
-- an association list whose order is the order in which Go happens to visit it, so that a statement
-- about all lists covers every order. Times are nanoseconds since Go's zero time, as natural numbers;
-- the 64 bits of a time.Duration and of a Unix time are not modelled. A text is a byte string, each
-- character one byte, and the white space that is trimmed is that of ASCII. A password change compares
-- and updates in one step, and no other request comes between a limiter's two calls of its cache.
-- A response always has its request, which ModifyResponse tests for. What a login leaves in its buffers
-- is stated for a store whose sessions name only buffers that have been allocated (`AreAllocated`).
--
-- What the code calls and does not define is an argument: clock readings, random IDs and salts, the
-- refresher of a session, the API server, the hasher, the URL, PEM, X.509, JSON, base64 and kubeconfig
-- decoders, the LRU caches (with what their operations promise), the token buckets, the Kubernetes client
-- library and HTTP client, the OIDC provider,
-- and JSON, base64 and HMAC (that what was encoded is read back, JSON only for UTF-8).
--
-- Bounds and fuel. The batches of a sweep (`sweep`) run on fuel, as many steps as IDs were collected;
-- each step takes up to 100 IDs off the list, so this is enough. All other loops are structural.
--
-- Not modelled: the matching of paths with routes, logging, the port forwarder, reading the
-- configuration file, the loop that serves HTTP and its end, generated protobuf code, and the frontend.
-- They are glue over libraries, generated, or written in another language.
pub mod Base
pub mod Session
pub mod Authn
pub mod Password
pub mod Plugins
pub mod Credentials
pub mod Upstream
pub mod Access
pub mod RateLimit
pub mod Oidc
pub mod Flows
pub mod Settings
pub mod AntreaSvc
pub mod Traceflow
pub mod Login
pub mod Api
pub mod Startup
pub mod System
