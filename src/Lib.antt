-- ===== src/Lib.antt =====
-- Luminair is a content management service: document types and their relations are declared in a
-- schema, document instances are created, related, published and read under the permissions of
-- the caller, users ask for access and are granted roles, and the database schema is migrated to
-- what the declared types need. The program is a Rust workspace in three layers, and so is this
-- model.
--
-- Domain (domain/src). Domain.Schema, .Registry and .Validator model schema/: document types,
-- relations and their views (`Relation::view_for`), the registry (`SchemaRegistry::new` and its
-- lookups), and `validate_content` with every constraint. Domain.Values and .Instance model
-- content/: values and their types, the instance's relations, its draft and publish states and
-- its audit trail. Domain.Auth and .AccessRequest model auth/: permissions, roles,
-- `AuthorizationService::can`, and the review of access requests. Domain.Config models
-- system/config.rs, Domain.Errors errors.rs, Domain.Ids the identifiers. The modules below a
-- component prove its theorems: Domain.Auth.Rules, Domain.Instance.Relations, .Publication and
-- .Edits, Domain.Registry.Lookup, Domain.Validator.Correct, Domain.Values.Typing,
-- Domain.AccessRequest.Review and .Sequence.
--
-- Application (application/src). Application.Context is context.rs, .Commands commands/, .Ports
-- the repository traits of domain/src/content/ports.rs and domain/src/auth/ports.rs.
-- Application.Documents with .Relations (`validate_and_apply_relations`) and .Enrich (`enrich`)
-- is services/documents.rs, Application.AccessRequests is services/access_requests.rs,
-- Application.SystemConfig services/system_config.rs. A service calls the domain's operations
-- and the repositories: it checks the caller, reads what is stored, applies the command,
-- validates the result against the registry, and saves it. Application.Effects has the steps of
-- a method and the rules by which proofs follow them; Documents.Rules, .Writes, .Creation,
-- .Publishing, .Reads and .ReadBack, AccessRequests.Reviews, Relations.Outcome, .Acceptable,
-- .Singular and .Frame, and Enrich.Stitching have the theorems.
--
-- Infrastructure (infrastructure/src). Infrastructure.Naming is persistence/naming: SQL keywords
-- and the change of kebab-case to snake_case (.Sanitize), the names of tables, columns, indexes
-- and keys (.Names), the system columns (.Columns) and the naming views (.Tables, .Links).
-- Infrastructure.Migration models persistence/migration/dynamic: the database schema (.Model,
-- model.rs), the schema that a registry asks for (.Builder, builder.rs: .Columns, the tables of
-- a type in .Tables and the whole in .Schema; theorems in Builder.Closed, .Resolved and .Fields,
-- over the lemmas of .Frame, .Lookup, .References and .Gathering), drift detection (.Diff,
-- diff.rs; theorems in Diff.Policy, .Converged and .Detection) and the planner (.Planner,
-- planner.rs; theorems in Planner.Order). Infrastructure.Loader is schema_loader/loader.rs: the
-- raw types of the JSON files (.Raw), constraints (.Constraints), document types (.Types),
-- relations and the configuration (.Relations), and `load_schema_registry` over a directory
-- (.Directory); its theorems are in .Accepted and .Loaded, and Infrastructure.Startup has what
-- loading and building give together. Infrastructure.Json has the values of `serde_json`.
-- Infrastructure.Http models api/ and auth/errors.rs: the response of each error (.Errors),
-- values to and from JSON (.Values) and the payload of a request (.Payload), documents, document
-- types and access requests as JSON (.Documents), api/dto.rs but for its generic envelopes;
-- theorems in .Faults, .RoundTrip (over .Entries), .Accepted and .Shown. Infrastructure.Codec is
-- persistence/query/codec.rs, with Codec.RoundTrip. Infrastructure.Auth has auth/claims.rs
-- (.Claims), auth/resolver.rs (.Resolver, theorem in .Granted) and auth/bootstrap.rs
-- (.Bootstrap, theorem in .Idempotent).
--
-- The parts meet in this order: the loader makes a registry of checked types, the builder makes
-- of it the tables that the migration compares with the database; a request's caller is resolved
-- from its claims, its body is read as a payload of fields and relation actions, and the service
-- applies it as a command; what the service refuses becomes a response; what it saves is written
-- and read by the codec.
--
-- Base has what the modules share: lists, texts, indexed sets and maps with decided equality,
-- results and what their success yields (.Fallible), stateful computations with do blocks,
-- integers. Tests has a small schema, repositories held in lists, and each theorem at a concrete
-- input.
--
-- How the code is translated. A validated string type is its string. A `Uuid`, a `Decimal`, a
-- date and an instant are values of other crates and are represented by numbers, which the code
-- compares for equality at most; the order of decimals and regular expressions, which it also
-- uses, are the parameter `Crates`. `Utc::now` and `Uuid::now_v7` are arguments (`now`, `id`,
-- `fresh`). A `u32` wraps at 2 ^ 32; an `i64` is an integer. A `HashMap` is an association list
-- without repeated keys, whose order stands for the order of iteration; an `IndexSet` is a list
-- keyed by the field that its `Borrow` names. A formatted message is a constructor with the
-- values that it shows. A method on `&mut self` that can fail is a function from the object to a
-- result and the object after the call. The transient `populated_relations` of an instance is
-- split off (`PopulatedInstance`). A repository is a record of functions over any type of store:
-- a query reads the store, a command may change it, also when it fails. A method of a service
-- runs with no other method in between. Where `expect` would panic, the answer is `none`. Loops
-- are structural recursion, also that over nested JSON, whose items and members are data types
-- in a mutual block; no function needs fuel.
--
-- Other crates' code, and what the program is given from outside, are parameters: `Files` is the
-- file system and the parsing of JSON text into the raw types, `Numbers` the numbers of
-- `serde_json`, `Identifiers` the `try_new` of the identifiers (its regular expressions are
-- another crate's), `Formats` the writing and parsing of uuids, decimals, dates, instants,
-- addresses and numbers, `Row` a row of the database, `Serde` the JSON of whole maps, `Upsert`
-- the repository of shadow users. What a theorem needs of them is a hypothesis: that a parser
-- reads what its writer makes (`Reads`), that `save` stores an assignment (`Saves`), that a read
-- finds the document that was saved (`Finds`). A `usize` has 64 bits. An object of `serde_json`
-- is a list of members in the order of insertion. The casts to `i16` and `i32` wrap.
--
-- What is not modelled. The regular expressions of the identifiers' constructors,
-- `RelationId::derive`, the execution of SQL and the introspection of a database (executor.rs,
-- introspector.rs, sync.rs), the queries and filters, routes and handlers, token validation, the
-- command line. Of the repository traits, only the methods that the modelled code calls.
-- Interleavings of several requests on one store are not modelled. Log lines are left out.
pub mod Base
pub mod Domain
pub mod Application
pub mod Infrastructure
pub mod Tests
