-- ===== src/Lib.antt =====
-- goserver: a model of the Go web server of this repository, and the theorems about it.
--
-- The program is an HTTP server. A request passes the gate that server.go builds (maintenance,
-- shutdown, limits, hooks), the middleware chain, and the router, which calls a handler. The
-- middleware and the services that handlers use (cache, sessions, tokens, jobs, proxies) keep
-- state of their own.
--
-- Which file models which part (paths from the root of the repository):
--   Common, Text, Maps   lists, options and numbers; the functions of Go's `strings` that the
--                        program calls, on bytes; Go maps with string keys
--   Http                 requests, response writers, handlers and middleware; error.go
--                        (RenderError, RenderErrorJSON), GetRequestID of requestid.go
--   Router, Router/*     router.go: cleanPath, compilePattern, matchSegments, fastMatchNoParams,
--                        Handle, HandleFallback, ServeHTTP, serveOptionsIfKnown; handler.go:
--                        ANY, Group, addRoute (Router/Groups)
--   Server, Server/*     server.go: buildHandler, compileMiddlewareChain, newConnStateCallback,
--                        normalizeServerAddr; lifecycle.go: beginWork; maintenance.go: enabled,
--                        allows; isRequestMethod of utils.go
--   Lru, Lru/Unbounded   the LRU cache of hashicorp/golang-lru, which is not in the repository: an
--                        interface of operations and laws, and an instance that never evicts
--   Cache, Cache/*       cache.go: GetOrSet, GetOrSetSWR, Get, Set, Fetch, triggerRevalidate, cleanup
--   Idempotency,         idempotency.go: IdempotencyMiddleware, responseInterceptor
--   Idempotency/*
--   RateLimit            ratelimit.go: WithRateLimiter, getClient
--   Session              session.go: Get, Set, Delete, GetOrSet, SetSessionValue
--   Csrf, Csrf/*         csrf.go: CSRFMiddleware, match, normalizeWildcardOrigin
--   Tenants              tenants.go: Middleware, matchWildcardExtended
--   LoadShedding         loadshedding.go: LoadSheddingMiddleware, done
--   Proxies              proxymanager.go: UpdateSynchronously, MarkBad, GetRandomProxy
--   Tokens               jwt.go: GenerateToken, ValidateToken
--   Cron                 cron.go: AddIntervalJob, AddDailyJob, Start, Stop, runDaily
--   Protect              protect.go, security.go, header.go, detector.go
--   Requests             prefix.go, redirect.go, params.go, requestid.go
--   Numbers, Numbers/*   the decimal numbers of Go's `strconv`
--   Utils, WsToken       utils.go: GetEnvBytes, GetRealIP, isValidOrigin, GetQueryParam and others;
--                        wstoken.go: GenerateWSToken, ValidateWSToken
--   Json, Json/*         json.go: compilePath, GetDotPath
--   Timeout, Timeout/*   timeout.go: timeoutWriter with Unwrap, TimeoutMiddleware
--   Web/Pages            web_framework.go: LoadPages, pageRoute, Match, matchRoute, selectPageFrom
--   Web/States           web_framework.go: runtimeStateStore (Put, PutTrusted, Get)
--   Web/Renders          web_framework.go: renderCache
--   Web/Rules, Web/Api   web_framework.go: routeRule, routeTTL, cacheableRequest,
--                        responseCacheable; httpResponseCache, serveServerRoute
--   Web/Css              web_framework.go: splitCSSUnits, buildCSSChunks
--   Web/Html             web_framework.go: compactHTMLIntertagWhitespace, htmlTagEnd, htmlTagName,
--                        safeStyleDeclarations
--   Web/Scopes           web_framework.go: Scope, replaceRuntimeStateTokens,
--                        removeRuntimeStateAttributes
--   Web/Chains           web_framework.go: renderNodes
--   Tests, Tests/*       the theorems at concrete inputs
--
-- How state is modelled. An operation takes the state and gives it back. A Go map is an
-- association list; an object that several owners share is an address of a heap (the records of
-- the rate limiter, the maps of sessions). Times are native numbers of nanoseconds, given as
-- arguments: what a call reads from the clock is one argument for each reading. What other
-- goroutines do between two locked regions of a call is an argument too, or a step of a relation
-- (Cron/Running, LoadShedding/Slots, Timeout/Race, Web/Api/Steps). What a call gets from a flight
-- of another goroutine that it joins is an argument in Cache; in Idempotency a request leads its
-- flight. Integers are taken not to overflow: counters of 64 bits; only the sizes of GetEnvBytes
-- wrap around as in the code.
--
-- Fuel and bounds. `itoa` takes as fuel one more than the number it prints, which has at most that
-- many digits. In Web, the loop that makes room for a state has the number of tokens in the order
-- as fuel, the one that makes room for a document the number of entries, and those that
-- compact a document, and replace or remove the attributes of states, the number of its bytes or one
-- more (Web/States/Room, Web/Renders/Room, Web/Html/Compact, Web/Scopes/Attributes).
-- Every other loop is structural recursion on a list or a counter of the source.
--
-- Arguments in place of code that is not in the repository: the LRU cache, SHA-256, HMAC, base64,
-- JSON, html/template, url.Parse, net.SplitHostPort, CrossOriginProtection, the file system.
-- Letter case and white space are those of ASCII. A handler is a function on the request and the
-- writer; in Idempotency it is the list of its calls on the writer, and the server's own writer
-- keeps its header once a final status or a chunk is written.
--
-- Not modelled: start-up and signals, logging, panics, the client, mail, Telegram, WebSocket and
-- streams, templates, translations, database and Redis adapters, the
-- compiler of components and assets of the web framework, and the command line tool.
pub mod Common
pub mod Text
pub mod Maps
pub mod Http
pub mod Router
pub mod Lru
pub mod Cache
pub mod Server
pub mod RateLimit
pub mod Session
pub mod Csrf
pub mod Tenants
pub mod LoadShedding
pub mod Proxies
pub mod Tokens
pub mod Cron
pub mod Protect
pub mod Idempotency
pub mod Requests
pub mod Web
pub mod Timeout
pub mod Numbers
pub mod Utils
pub mod WsToken
pub mod Json
pub mod Tests
