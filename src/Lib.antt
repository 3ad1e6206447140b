-- ===== src/Lib.antt =====
-- Verification library for hopeit.engine, a Python engine for microservices.
--
-- The engine reads an app's configuration, loads the events of the app, and runs the steps of an
-- event on a payload that comes from a request, a stream or a schedule. An event whose steps contain
-- SHUFFLE is split into several events that are joined by streams; streams are read and written
-- through a manager that stands behind a circuit breaker. Apps call events of other apps with a
-- client that balances hosts. Requests are authorized by the types of their event before app code
-- runs.
--
-- The parts and their files, with the code that each models:
--   Common: shared names, lists by native numbers, results of code that may raise, dicts, texts.
--   Names: engine/src/hopeit/server/names.py, on ASCII names. Names/Parts is about auto_path.
--   Config: the descriptors of engine/src/hopeit/app/config.py with their defaults.
--   Streams/Breaker: class StreamCircuitBreaker of engine/src/hopeit/streams/__init__.py. The
--     wrapped manager is given by the outcome of each call; `step` is one end of a call or one move
--     of a backoff task, so that a list of events is an interleaving.
--   Steps: engine/src/hopeit/server/steps.py. Effective is effective_steps, Next is _find_next_step,
--     Execute is execute_steps with _execute_steps_recursion, Stages is extract_event_stages and
--     split_event_stages. Steps are functions on payloads; an asynchronous generator is a Trace.
--     Execute/Semantics is a relation that says what execution means, without indices or fuel.
--   Collector: engine/src/hopeit/server/collector.py, with _run_collector of server/steps.py. A step is
--     the tree of its awaits, a move runs one task up to its next await; Sequential says what the
--     steps compute on their own. Progress, Order and Started are about runs in every order.
--   Events: engine/src/hopeit/server/events.py. Modules is load_modules with find_event_handler of
--     server/imports.py, Events itself the calls of the handler; Stages is about events that are
--     stages of others, Initialized about sequences of calls. Importing a module is a parameter.
--   Client: plugins/clients/apps-client/src/hopeit/apps_client/__init__.py. Balancer is
--     CircuitBreakLoadBalancer with _next_available_host, Tokens is _ensure_token and _auth_headers,
--     Responses is _parse_response, Call is AppsClient.call. Requests, signing, the clock and random
--     numbers are parameters.
--   Web: engine/src/hopeit/server/web.py and engine/src/hopeit/toolkit/auth.py. Keys is app_public_key
--     and validate_token, Authorization is _validate_authorization with the validation methods on the
--     dict auth_info_default that all requests share, Authorization/Shared is what contexts see of it,
--     Handlers is _request_execute and the POST, GET and MULTIPART handlers, Routes is
--     _setup_app_event_routes with app_route_name of engine/src/hopeit/server/api.py. The parts of a
--     token, its verification and the key files are parameters, and so is app code.
--   Engine: engine/src/hopeit/server/engine.py. Publish is _execute_event with its batches and
--     _write_stream, Processing is _process_stream_event, Reading is _read_stream_cycle and the loop
--     of read_stream, Lifecycle is start_event, stop_event and the lock of an event, Effective is
--     _config_effective_events, which uses Steps/Stages. The stream manager and the event's steps are parameters; in Reading so is the processing of an event.
--   Serialization: engine/src/hopeit/server/serialization.py and engine/src/hopeit/server/compression.py
--     with the enumerations of engine/src/hopeit/app/config.py. The codecs, JSON, pickle, UTF-8 and
--     base64 are parameters.
--   Redis: plugins/streams/redis/src/hopeit/redis_streams/__init__.py. Message is _encode_message and
--     _decode_message, Redis itself the operations of the stream manager, given what the client does.
--   Storage: class FileStorage of plugins/storage/fs/src/hopeit/fs_storage/__init__.py, on a dict from
--     paths to contents. Paths is what it does with the texts of paths, Writing is about what is read
--     while a file is written.
--   Job: engine/src/hopeit/server/job.py. Select is _select_app_config and _plugins_for_app, Arguments
--     is parse_track_ids and parse_query_args, with json.loads as a parameter, and Run is run_job as
--     the sequence of the calls that it awaits, with their outcomes as parameters.
--
-- Fuel: execute_steps runs on twice the number of steps, since each call moves on by a step or turns
-- from the loop to the recursion; Steps/Execute/Total shows that the fuel never ends a run. The loop
-- of read_stream has fuel, since a stream may go on for ever; with a limit on events, a round more
-- than the limit is enough, as Engine/Reading/Limit shows.
--
-- Outside of Collector and of the gates and calls in Streams/Breaker, concurrent tasks are put in the
-- order in which asyncio.gather starts them, and requests are authorized one after the other, as the
-- code has no await in between. The aiohttp objects, timeouts and waits are left out.
--
-- Not modelled: logging, metrics output, OpenAPI documents, data objects (pydantic), the redis
-- storage and data frame plugins, the command line, and the HTTP and stream clients themselves, which are
-- third-party code. Steps that spawn give finite runs of payloads; payloads are immutable values.
pub mod Common
pub mod Names
pub mod Config
pub mod Streams
pub mod Client
pub mod Steps
pub mod Collector
pub mod Events
pub mod Web
pub mod Engine
pub mod Serialization
pub mod Redis
pub mod Storage
pub mod Job
