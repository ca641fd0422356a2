-- ===== src/Lib.antt =====
-- Verification library of the service broker: an Open Service Broker API server that keeps its
-- state in Kubernetes secrets and provisions resources from configured templates.
--
-- A request comes in at ServeHTTP (pkg/broker/broker.go), which checks its headers and routes it to
-- a handler (pkg/broker/handlers.go). The handlers check it against the configuration
-- (pkg/broker/util.go, pkg/config/validation.go, pkg/apis/servicebroker/v1alpha1), find the instance's
-- namespace in the directory and its record in the registry (pkg/registry), record the operation on
-- it (pkg/operation), and run a provisioner (pkg/provisioners), for instances in the background. A
-- poll ends an operation that the provisioner has completed.
--
-- The parts, by file:
--   Base, Base/Dict, Base/Text: shared names, Go maps as association lists, texts.
--   Errors: pkg/errors, and results that may be an error or a panic.
--   Json: JSON values, and byte strings by the value, the spelling and the spacing that they have, so
--     that two texts of one value differ where the code compares bytes (reflect.DeepEqual).
--   Exec: functions that change a state and may fail.
--   ParseTree, Crypto: the parse trees of text/template, and what is called of the crypto packages.
--   X509: pkg/util/x509.go, keys and, in X509/Certificates, certificates.
--   Catalog: pkg/api/catalog_types.go and the conversion into it, pkg/apis/servicebroker/v1alpha1/
--   conversion.go; Catalog/Wire is how it is written as JSON.
--   Env: what the broker calls and does not implement, as the fields of one record, which every
--   definition that uses them takes: the Kubernetes API, JSON schema, JSON pointer, text/template,
--   jsonpatch, JWT, the database. `State` is everything outside the process.
--   Registry: pkg/registry/registry.go. An entry is its secret and two flags; `new`, `commit`,
--   `delete`, `get_string`, `set_user` and the others are New, Commit, Delete, GetString, SetUser. The
--   modules below it are about the keys, the values, the permissions of templates and persistence.
--   Registry/Directory: pkg/registry/directory.go.
--   Operation: pkg/operation/operation.go; Operation/Phases has its state machine, and
--   Operation/Machine an abstract machine that it implements.
--   Config, Config/Validation: the configuration types, the lookups and validate; what it accepts is in
--   Config/Validation/Accepts.
--   Config/Controller: pkg/config/config.go, the callbacks that keep the active configuration.
--   Http: requests, responses, and translateError.
--   Provisioner: pkg/provisioners; Template (template.go; Actions is the walk over the parse tree,
--   Functions the generators), Prepare and Creator (create.go, delete.go),
--   Object (the unstructured objects of create.go), Updater (update.go), Readiness (readiness.go), and
--   WaitFor of pkg/util/wait.go.
--   Broker: pkg/broker. util.go is Broker and Broker/Directory, broker.go is Broker/Auth and
--   Broker/Server, handlers.go is Broker/Create, Broker/Instance, Broker/Binding, with the steps that
--   they share in Broker/Handler, Broker/Steps and Broker/Record. A handler is a function of the state
--   outside, the responses sent and the jobs started; it goes on, returns or panics after each step, so
--   a missing return after an error shows as two responses.
--   Broker/Handler/Rules, Broker/Handler/Keeps, Broker/Handler/Shared, Broker/Steps/Laws: rules about
--   what a handler keeps and where it goes, one for each way to build a handler.
--   Broker/Guards: what holds of a request before its handler changes anything; the modules below
--   Broker/Create, Broker/Instance and Broker/Binding are about what the handlers then do and answer.
--   Broker/Jobs: the `go` statements of handlers.go, and what holds of the jobs that they start.
--   System: the broker as it runs, with requests, jobs, events of the configuration, restarts and
--   changes by others as steps in any order. Safety is about its jobs, Serves about its
--   configuration, Polls and Deletions about how operations end.
--   Command: cmd/broker/main.go, the start of the broker.
--   Tests: a cluster in memory, and the theorems at concrete inputs.
--
-- What the broker relies on in the Kubernetes API is the record KeepsSecrets (Registry/Persistence):
-- a write that is acknowledged is read back, and no write touches another secret. Tests/Cluster has a
-- cluster that fulfils it. No other behaviour of third-party code is assumed, but for the round
-- trips of keys (ReadsKeys of X509/Keys), the bound of random numbers (DrawsBelow of
-- Provisioner/Template/Functions/Passwords), and two raw
-- extensions that come back from the registry as they were written (`IsStable` of Broker/Record/Laws).
--
-- Bounds: snippets nest as deep as `stack_depth` of the environment, past which the process runs out
-- of stack; WaitFor calls its condition as often as the environment's `ticks` says, which is how many
-- ticks its select takes before the deadline: the clock and the scheduler decide that. All else is
-- structural recursion on the data of the configuration, the entry or the answers.
--
-- Not modelled: the clients, logging, generated code, the text of flags, and RunServer. A job runs as
-- one step, so requests and others come before or after it; the lock of the configuration is the
-- configuration that a request or a job is given. Template constants are integers without bounds.
pub mod Base
pub mod Errors
pub mod Json
pub mod Exec
pub mod ParseTree
pub mod Crypto
pub mod X509
pub mod Env
pub mod Registry
pub mod Operation
pub mod Config
pub mod Catalog
pub mod Http
pub mod Provisioner
pub mod Broker
pub mod System
pub mod Command
pub mod Tests
