-- ===== src/Lib.antt =====
-- The Go SDK of the Declarion platform: a client of the platform's HTTP API, the runtime that
-- serves handlers to it, and the error document that both sides speak.
--
-- How the parts interact. A handler is called with a bearer token (runtime/token.go,
-- runtime/verifier_token.go), which
-- the pipeline of a request (runtime/serve.go) routes by its family to a handler or to a verifier;
-- its claims become the handler's context (runtime/ctx.go). The context holds a client of the platform (platform/client.go) that carries the bearer and the
-- selection of authority that it inherits (execution/elevation.go); deriving a context with more
-- authority derives the client, and every request writes the selection to a header. Responses carry
-- the version of the platform's parameters, which the process-wide cache (platform/params_cache.go)
-- compares with the versions of its entries. Every failure is an error document (errs/), which a
-- boundary rewrites from its catalogue before it answers.
--
-- The files, by the code that they model:
--   Errs.antt               errs/errs.go, errs/catalogue.go: `Error`, its chain, `TypeDef.TitleFor`
--   Errs/Render.antt        errs/render.go: `Render`, `render`, `fits`, `tooLarge`, `Bounded`
--   Errs/Wire.antt          errs/errs.go: `MarshalJSON`, `UnmarshalJSON` on the members of an object
--   Execution.antt          execution/elevation.go: `Elevation` and its operations
--   Execution/Inherited.antt  execution/elevation.go: `InheritedSelection`
--   Platform/Header.antt    platform/params_cache.go: `headerInt`
--   Platform/ParamsCache.antt  platform/params_cache.go: `observe`, `get`, `put`, `dropUnservable`
--   Platform/Params.antt    platform/params.go: `Lookup`, `GetParam`
--   Platform/Client.antt    platform/client.go, platform/elevation.go, platform/forwarded.go
--   Platform/Errors.antt    platform/errors.go: `errorFromResponse`, `StatusOf`, `IsNotFound`
--   Runtime/Token.antt      runtime/token.go, runtime/verifier_token.go
--   Runtime/Context.antt    runtime/ctx.go, runtime/elevation.go
--   Runtime/Rpc.antt, Runtime/Rpc/Reserved.antt, Runtime/Rpc/Pipeline.antt
--                           runtime/serve.go, runtime/jsonrpc.go, runtime/authenticator.go,
--                           runtime/verifier_error.go: `handleRPC` and what it calls
--   Runtime/Server.antt     runtime/serve.go, platform/transport.go: `withDefaults`, `connectPlatform`,
--                           `NewHandler`, `NewTransport`
--   Runtime/Helpers.antt    runtime/params.go, runtime/verifier_ctx.go
--   Platform/Stream.antt, Platform/Stream/Utf8.antt
--                           platform/actions_stream.go: `ActionStream`, from `readEvent` to `Next`
--   Jsondoc/Budget.antt     jsondoc/budget.go: the estimate of a document's decoded size
--   Jsondoc/Numbers.antt    jsondoc/numbers.go: `ValidateNumbers`
--   Dispatch.antt, Dispatch/Verifiers.antt
--                           dispatch/registry.go, runtime/register.go, runtime/register_verifier.go
--   Dispatch/Params.antt    handlerparam/param.go, handlerparam/reflect.go: `ReflectParams`
--   Tracing.antt            tracing/context.go: the work of a context, `Inject`, `Strip`, `AdoptPath`
--   Tracing/Origin.antt, Tracing/Http.antt
--                           tracing/http.go: `sameOrigin`, `RoundTrip`, `PlatformClient`,
--                           `ServerMiddleware`
--   Fileref.antt, Fileref/Time.antt
--                           fileref/key.go: `ParseKey`, `Key.String`, `VerifyContent`
--   Platform/Filter.antt, Platform/Call.antt, Platform/Data.antt
--                           platform/filter.go, platform/data.go: the reads and the writes
--   Platform/Batch.antt     platform/batch.go, platform/actions.go, platform/schema.go
--   Platform/UrlTemplate.antt  platform/tracing.go
--   Platform/References.antt  platform/references.go, platform/argument_reference.go
-- The other files below a component state and prove its properties, and its Tests hold examples.
-- Common.antt and its children hold what the components share.
--
-- Conventions. A Go `error` is the list of the links of its chain. A time is a number of nanoseconds,
-- and `time.Now` an argument. An `int64` keeps its wrap-around where the code multiplies or adds
-- what a caller gives. A map is an association list; `IsMap` says that each key stands once. What is
-- not the repository's code is a parameter: the JSON Web Token library (a record of operations with
-- its documented laws), base64 and JSON codecs, what JSON makes of the claims of a token, the JSON decoder's tokens,
-- the transport, the registered functions, net/url, the digests, the canonical form of a UUID.
--
-- One definition has fuel: the walk of `ValidateNumbers` through a heap that may be cyclic, which the
-- number of the containers is enough for (Jsondoc/Numbers/Ends.antt). The reader of a stream recurs on
-- the lines of the body, the estimate on the tokens of the document. The one number of calls, in `drain`, which calls `Next` again and
-- again, is any number above that of the items that the server wrote. The digits of a year above 9999 are
-- counted by a bound that the year itself gives.
--
-- Not modelled: goroutines and locks (an operation under a lock is one step), the transport and the
-- servers' loops, logging, the OpenTelemetry SDK (a parameter of Tracing.antt), test containers, the static checkers and the command lines.
pub mod Common
pub mod Dispatch
pub mod Errs
pub mod Execution
pub mod Fileref
pub mod Jsondoc
pub mod Platform
pub mod Runtime
pub mod Tracing
