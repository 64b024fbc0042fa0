-- ===== src/Lib.antt =====
-- CVT, a contract validator for OpenAPI documents: a server (server/cvtservice) registers schemas
-- and consumers, compares schema versions and says whether a version can be deployed; the embedded
-- library and the command line (pkg/cvt) compare documents without a server.
--
-- The parts and how they interact:
--   OpenApi      the parts of a parsed document (kin-openapi) that the code reads
--   Registry     registrations of consumers: server/cvtservice/cache.go, server/storage/storage.go
--   Compat       the two engines that find breaking changes,
--                server/cvtservice/compatibility_engine.go and pkg/cvt/compatibility.go
--   Deploy       server/cvtservice/deployment_safety.go: `CanIDeploy`, which compares the versions
--                that the consumers pin with the new one by the server's engine
--   Store        server/storage/memory.go: the store behind the server, in memory
--   Cache        server/cvtservice/cache.go: the cached schemas, the version lists that are kept of
--                them and the registry of consumers
--   Service      server/cvtservice/validator_service.go, hooks_fire.go and schema_metadata.go: the
--                lookup of an entry in the cache, at a plugin and in the store, RegisterSchema
--                (Schemas), GetSchema and CompareSchemas (Queries); validation_utils.go
--                (Requests); and consumer_registry.go: a consumer's registration and removal
--   Plugins      internal/pluginmgr: config.go (Config, Expansion, Paths), state.go (State) and
--                manager.go (Manager); and internal/pluginclient/hooks_adapter.go (Hooks)
--   Auth         server/cvtservice/auth.go and interceptors.go: API keys, and the requests that they
--                let through
--   Generator    pkg/cvt/generator.go: generated values, the choice of a response (Status), and
--                GenerateResponse (Response) with GenerateFixture (Fixture)
--   Samples      instances of the interfaces for the tests
--   Base         Booleans, lists, texts, sorting, and maps as association lists (Base/Dict)
--
-- How code becomes definitions: a method of an engine is a function of the same name in snake case
-- from documents to lists of changes, its loops with `continue` are `collect`, `on_some` and
-- `only_if`. Compat/Checks has what both engines share, Compat/Server and Compat/Embedded the rest
-- of each, and Compat/Spec says what a compatible document owes, apart from how it is checked. The
-- loop of `CanIDeploy` is `check_consumers`, with the service's state passed through the lookups
-- of entries. The store's maps are fields of `MemoryStore`, an operation that can fail returns a
-- `Result`, and Store/Reachable has the steps between states.
--
-- Most loops run over a list or a map, and are structurally recursive. The loop of `expandEnv`
-- (Plugins/Expansion) has fuel, one more than the text has characters, since each round cuts some
-- off. `generateValue` (Generator) stops below depth 10 by itself: depths 0 to 10 are eleven levels.
-- Numbers that the code keeps in 64 bits are counters of lists in memory and instants of
-- time, and are natural numbers.
--
-- `CanIDeploy` takes the lookup of entries and of consumers as an interface, Deploy.SchemaSource,
-- which Service.service_source fills.
--
-- Parameters: `openapi3.Paths.Find`, and the order in which an engine's loops visit the values of an
-- enumeration (OpenApi.Finder, with their documented laws), so that no result depends on that order
-- but the text of a removed enumeration value; `openapi3.Responses.Status`
-- (Generator.Status.StatusLookup, with its documented laws), the plugin and the
-- parsing of documents and hashing of texts (Service.External), the decimal text of a
-- number, the cache package ristretto (Cache.Ristretto, which may evict at any time), fresh
-- identifiers, the disk and the environment of the plugin manager and of the API keys, the faker with
-- floating-point numbers (Generator.Faker), and the router that finds an operation
-- (Generator.Response.Routes).
--
-- Not modelled: the network services, logging, metrics, locks, parsing and validation of documents
-- by kin-openapi, the SQL stores, the processes of plugins, generated protobuf code, and the command
-- line. A map is read in the order of its association list, where Go's order is unspecified; the
-- results that depend on it are the order of the changes and of the listed records, which of the
-- versions registered at one time is the previous one, and, in Generator, which of several codes
-- that are not preferred and which of several JSON contents is taken.
pub mod Base
pub mod OpenApi
pub mod Registry
pub mod Compat
pub mod Deploy
pub mod Store
pub mod Auth
pub mod Cache
pub mod Generator
pub mod Plugins
pub mod Samples
pub mod Service
