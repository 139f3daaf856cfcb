-- ===== src/Lib.antt =====
-- TenderBase: the ingestion of South African municipal tenders, and the limits on its API.
--
-- A source (a row of municipality_sources) is imported, verified and moved through its lifecycle by
-- operators; the scheduler selects sources that are due; a run reads a source's connector item by
-- item, normalizes, validates and deduplicates each record, stores or updates the opportunity with its
-- versions, events and documents, and leaves its outcome on the run, the job and the source's health.
-- A failed run is retried by the queue under a backoff. All HTTP goes through a fetcher that checks each
-- URL, keeps the calls of a host apart and bounds what it reads; the verifier tries a source before it
-- is scheduled; documents are downloaded under keys made of their hashes. The API counts requests in
-- fixed windows and asks for a key with the right scope.
--
-- Files and the code that they model (paths from the repository's root):
--   Prelude       library names, tests, lists, results, and texts as lists of code points
--   Enums         app/enums.py; Enums/Parse is _Extensible.parse
--   Source        app/db/models/source.py; Source/Lifecycle is _record and set_lifecycle of
--                 app/services/verification_service.py; Source/Health is _update_health of
--                 app/ingestion/pipeline.py; Source/Due is app/ingestion/discovery.py
--   Ingestion     Record: app/schemas/tender.py and the models; Dedup: app/ingestion/deduplicator.py;
--                 Versioning: app/ingestion/versioning.py; Validator: app/ingestion/validator.py;
--                 Parser: app/ingestion/parser.py; Persist and Run: app/ingestion/pipeline.py, where
--                 Persist/Partial is what an item leaves that an exception breaks off;
--                 Reference: normalize_reference_number of app/utils/text.py
--   Cleaning      app/utils/text.py: clean_text
--   Normalizer    app/ingestion/normalizer.py: RawItem.get, the status and the briefing of a tender;
--                 Normalizer/Kind is its type and the URLs of its record
--   Urls          app/utils/urls.py
--   Fetcher       app/ingestion/fetcher.py: Politeness is RateLimiter and RobotsCache, Response is
--                 _attempt, Fetch is fetch, Stream is stream_to
--   Verifier      app/ingestion/verifier.py: Listing and Sampling are its checks, Run is verify
--   Documents     app/documents/storage.py and app/documents/downloader.py
--   Workers       app/workers/tasks.py: ingest_source and schedule_due_sources
--   Auth          app/api/auth.py
--   RateLimit     app/services/rate_limit.py
--   Retry         app/workers/retry.py and app/utils/backoff.py
--   ApiKey        app/services/api_key_service.py, app/db/models/security.py
--   Witnesses     concrete inputs for the theorems
--
-- State is passed explicitly. Tables are lists of rows with new rows at the head; SQL conditions are
-- tests on rows, and an ORDER BY is an insertion sort. Moments are microseconds, durations and rates
-- are scaled to whole numbers (the unit stands in each file), Decimal values are a sign and a text, and
-- identifiers are numbers. An exception is a value of Result. An iteration of a connector's generator
-- is a list of items with the exception, if any, that ends it.
--
-- Parameters: Unicode tables, the parsers of urllib and ipaddress and the resolver, what the network
-- answers to a request after the requests before it, pg_trgm's similarity, hashes of contacts, keys
-- and documents, Python's rounding (with its error as a hypothesis where it matters), `normalize` as a
-- whole, the connector, the exceptions of an item, what a Numeric column gives back,
-- Redis' commands (with the documented effect of PEXPIRE on PTTL as a hypothesis), and random draws.
--
-- Bounds and fuel: a run reads at most 5000 items, the limit of the code. `tries` counts the tries of a
-- job on fuel; max(1, worker_max_tries) is enough, as its theorem says. All other loops are
-- structural.
--
-- Not modelled: logging, metrics and SQL; the contact, value, dates and hashes that the normalizer
-- derives; the connectors and the extraction of texts,
-- which rest on libraries; the queue's own bookkeeping; the HTTP layer and its queries; configuration.
-- A transaction appears only in the workers' tasks and in the authentication, as rows that are kept or
-- rolled back as a whole. Tasks do not interleave. The clock is read once in a rate-limit check and in
-- an update of the health.
pub mod Prelude
pub mod Enums
pub mod Source
pub mod Ingestion
pub mod RateLimit
pub mod Retry
pub mod ApiKey
pub mod Urls
pub mod Fetcher
pub mod Verifier
pub mod Auth
pub mod Workers
pub mod Documents
pub mod Witnesses
pub mod Cleaning
pub mod Normalizer
