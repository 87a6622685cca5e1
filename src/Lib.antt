-- ===== src/Lib.antt =====
-- Verification library of orionis, a Go library and server for service-to-service access tokens.
--
-- The program. A service asks the authorization server (package server) for a token, by the OAuth
-- client credentials grant; the server finds the client in its store, checks its secret, decides the
-- scopes and signs claims. The service sends the token to another one, which verifies it with the
-- package orionis (verifier.go), by keys that the package jwk provides: a fixed set, or the server's
-- published set, which a remote provider fetches and refreshes. The handlers then ask the claims for
-- scopes. The package client asks for tokens on behalf of a service, keeps them, and puts them into its
-- requests; the package ginorion guards the handlers of the other one.
--
-- Which file models which part (a file's child modules hold its theorems; a child Builder holds
-- the builder of its configuration, and Jwk, Server, Client and Ginorion only name their parts):
--   Base, Base/*      library names, Boolean tests, lists, signed integers over the native numbers.
--   Text, Text/*      Go strings as lists of characters: TrimSpace, Fields, Join, EqualFold, and maps
--                     with string keys as association lists (Text/Dict).
--   Stringset         internal/stringset/stringset.go: Normalize.
--   Scopes            scopes.go: NormalizeScopes, ScopeString, ScopeCovers, wildcardScopeParts.
--   Claims            claims.go: Scopes, HasScope, HasAnyScope, HasAllScopes.
--   Token             token.go: BearerToken and the records of a token.
--   Verifier          verifier.go: the setup of a verifier, and Verify.
--   Server/Scopes     server/scopes.go: resolveRequestedScopes and its helpers.
--   Server/Client     server/client.go: setup, Normalize, Validate, VerifySecret.
--   Server/Store      server/store.go: MemoryClientStore.
--   Server/TokenService
--                     server/token_service.go: issue, authenticate, issueAccessToken.
--   Server/Config     server/config.go, server/server.go, server/signer.go: Builder, buildServer.
--   Server/Http       server/http.go and firstNonEmpty of server/util.go: the HTTP endpoints.
--   Jwk/Key, Jwk/Decode, Jwk/Set
--                     jwk/key.go, jwk/decode.go: DecodePublicKey, decodeSet.
--   Jwk/Static        jwk/static.go: the fixed set of keys.
--   Jwk/Ed25519       jwk/ed25519.go: the signer, and the file of its key.
--   Jwk/Remote        jwk/remote.go: Refresh, refreshIfUnchanged, Key. Refreshes are steps of the
--                     provider's state; a call of Key is a Run, which names the states that it meets
--                     between the steps of other calls.
--   Tokens            a token from its issue to its verification, by the packages server, jwk and
--                     orionis together (Tokens/Passing), and by the HTTP endpoints (Tokens/Serving).
--   Client/Tokens     client/cache.go: a token that is kept, and when it is fresh.
--   Client/Requests   client/token_http.go, client/authenticator.go, internal/httpjson/httpjson.go: the
--                     request for a token and its answer.
--   Client/Cache      client/cache.go: the store of tokens and calls, with its operations under the
--                     lock. Client/Cache/Flight: the callers of tokenResponse and the requests of calls,
--                     as steps. Client/Cache/Sharing: what the operations keep, given the number of
--                     callers that wait for each call. Client/Cache/Progress: what callers count on.
--                     Client/Cache/Ending: how many steps they take.
--   Client/Provider   client/provider.go, client/target.go, client/transport.go. Client/Provider/Serving:
--                     the cache of a provider that was built.
--   Client/Config     client/config.go: the builder and NewProvider.
--   Ginorion/Guard    ginorion/middleware.go, errors.go, claims.go, and the guard of builder.go; its
--                     child Builder is the rest of builder.go.
--   Ginorion/Routes   ginorion/routes.go.
--   Authapp/Config    internal/authapp/config.go: the configuration, from its form on the wire.
--   Authapp/Runtime   internal/authapp/runtime_config.go: compileConfig and what it calls.
--                     Authapp/Runtime/Again: what compiles again.
--   Authapp/Signing   internal/authapp/signing.go: loadSigningKeys, buildServer, over a loader that may
--                     change a state. Authapp/Signing/Repeated: a second load.
--   Authapp/Materials validateKeyMaterials and resolveConfig of runtime_config.go, expandPath of config.go
--                     and LoadSigner of signing.go. Authapp/Materials/Restart: what it stores.
--   Authapp/Yaml      internal/authapp/config_decoder.go, config_yaml.go.
--   Authapp/Loading   config_aws.go and the loading of config.go.
--   Authapp/App       internal/authapp/app.go. Authapp/App/Restarting: a second start.
--   Authroute         internal/authroute/authroute.go.
--   Arguments         cmd/orionis-auth/main.go: its flag, and how the package flag parses arguments.
--   Command           cmd/orionis-auth/main.go and http_server.go: run, newHTTPServer,
--                     serveHTTPServer, main.
--   Authapp/Ratelimit internal/authapp/ratelimit.go: allow, sweepExpired.
--   Authapp/Security  internal/authapp/audit.go, and the handler of ratelimit.go: the chain of handlers.
--   Authapp/Routes    internal/authapp/routes.go.
--   Tests, Tests/*    each theorem at a concrete input.
--
-- How state and operations correspond. A function of the source has a definition of its name, in lower
-- case with underscores; a method takes its receiver first, and a pointer that may be nil is an Option.
-- A builder's method answers the changed builder. An error is a constructor of a type of errors, or
-- `none` or `false` where the source only asks whether there is one; the wording of errors is not kept,
-- but for the OAuth errors that the server sends. A loop with an early return is structural recursion
-- over its list, so nothing needs fuel. What goroutines do between two locks of one mutex is a step of
-- a relation (Client/Cache/Flight); the requests of abandoned calls go on, and may end at any time.
--
-- Numbers. Lengths, counters and key material are native numbers; the RSA exponent and the counters of
-- the remote provider keep the wrap-around of uint64. Times and durations are integers of nanoseconds;
-- the sum of a time and a duration does not wrap, while the difference of two times stops at the bounds
-- of a Duration where the code compares one (Jwk/Remote, Client/Tokens). The lifetime of a token in
-- nanoseconds wraps as an int64 does.
--
-- What is a parameter. SHA-256 (`sum256`); base64 and the test of a point on P-256 (`Codec`); the
-- JWT library (`parse`, and what it reads of a token's text, `Jwt`, with its documented behaviour
-- as `IsParser` and `IsReader`); the clock, the random id, the conversion of dates and the
-- signature (`Environment`, `Signer`); what net/http parses (`Request`), and that it carries the
-- credentials of a request (`carried`); the HTTP exchange of a fetch and the decoding of JSON
-- (`Exchange`, `Json`); the answers of tokenResponse to the provider's methods (`respond`) and the
-- base transport (`send`); PEM, PKCS #8, Ed25519 and the signature (`Crypto`, with what is relied
-- on as `IsCrypto`), and what rand.Reader gives (`generated`); the disk (`Files`, with its laws as
-- `IsFiles`), the home directory and the environment (`System`), JSON and YAML (`Decoders`), and
-- AWS AppConfig (`hosted`); strings.ToLower, time.ParseDuration, net.SplitHostPort and the ceiling
-- of a duration (`ceil_seconds`); and what gin says of a route that it refuses (`clash`).
-- hex.DecodeString, subtle.ConstantTimeCompare and big.Int.SetBytes are written out from their
-- documentation.
--
-- What is not modelled. The log, and the examples, which call net/http and the operating system for
-- what they do. net/http serves, and a signal is an event (Command). gin runs the handlers of a route
-- one behind the other, and picks the route: the chains are modelled as they are run, the choice of a
-- route is not. Locks are held for a whole step, so their absence changes no result. Copies of slices
-- are values.
pub mod Base
pub mod Text
pub mod Stringset
pub mod Scopes
pub mod Claims
pub mod Token
pub mod Verifier
pub mod Server
pub mod Jwk
pub mod Client
pub mod Authroute
pub mod Ginorion
pub mod Authapp
pub mod Arguments
pub mod Command
pub mod Tokens
pub mod Tests
