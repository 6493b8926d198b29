-- ===== src/Lib.antt =====
-- A model of terraform-provider-scylladb: a Terraform provider that manages roles and grants of a
-- ScyllaDB or Cassandra cluster by sending CQL through gocql.
--
-- The program has two packages. `scylladb` turns grants and roles into CQL statements, reads the
-- tables `role_permissions` and `roles`, and reconciles all grants on a keyspace or a table with a
-- list of bindings. `internal/provider` holds the resources that Terraform drives: each handler
-- decodes a plan or a state, calls the client, and sets the new state or adds diagnostics.
--
-- Files, in the order of the layers:
-- - Base, Base/*: lists, Go's maps as association lists (`Dict`), and `Exec`: an action on the state
--   of the database that gives a value or an error. What it wrote before an error stays written.
-- - Go, Go/*: what the code uses of Go's library. `strings.Split`, `SplitN`, `ToUpper` walk code
--   points of a valid UTF-8 text; the tables of package `unicode` are a parameter (`Unicode`) with
--   what is documented of ASCII. `slices.Sort` is insertion sort. The order in which `range` visits
--   a map is a parameter (`RangeOrder`), one for each `range` statement.
-- - Cql, Cql/Lexer: the grammar of `GRANT`, `REVOKE` and `LIST`, which says what a statement means.
-- - Scylladb/Cluster: the types of scylladb/session.go.
-- - Scylladb/Connect (scylladb/session.go, and `envOnce` of scylladb/proxy_dialer.go): the
--   configuration of a cluster and of TLS, and `DialHost`, over the parameter `Network` for what is
--   called of other packages. Each host gets a dummy address under its place in the list.
-- - Scylladb/HttpProxy (scylladb/proxy_dialer.go): `Dial` of `HTTPProxyDialer` as `dial`, a sequence
--   of calls over the parameter `Wire`, the part of net, crypto/tls, net/http and bufio that it
--   calls, and `Read` of the connection as `read`. HttpProxy/Sockets and HttpProxy/Bytes say what is
--   relied on of the sockets and of the bytes behind it.
-- - Scylladb/EnvOnce: `envOnce` with its state, for an environment that changes.
-- - Scylladb/Keyspace (scylladb/keyspace.go), with Cql/CreateKeyspace for how its statement is read.
-- - Scylladb/Session: `gocql.Session`, a parameter: texts of statements go in, results come out.
-- - Scylladb/Grant (scylladb/grant.go): `Grant`, the templates as `create_query`, `delete_query` and
--   `read_query`, `getResourceName` as `get_resource_name`, and each method of `Cluster` under its
--   name in snake case. Grant/Render and Grant/Resource relate them to CQL and to the stored names.
-- - Scylladb/Database: what is relied on of the database: rows that a select gives, and what a
--   statement does if it succeeds. It is the hypothesis of the theorems on reconciliation, and
--   Tests/Memory shows a database for which it holds.
-- - Scylladb/Authoritative (scylladb/authoritative_grant.go): `ParseIdentifier` as
--   `parse_identifier`, `Validate` as `validate`, `ApplyAuthoritativeGrant` as
--   `apply_authoritative_grant`, with a function for each of its loops, and
--   `RevokeAllGrantsOnIdentifier`. The modules below it hold the proofs, named for what they show.
-- - Scylladb/Bindings: the sorted reads of the same file.
-- - Scylladb/Role (scylladb/roles.go), with Role/Database for what is relied on of the roles table.
-- - Provider/Framework: values, diagnostics and handlers of terraform-plugin-framework. A handler
--   takes what `req.Plan.Get` and `req.State.Get` decode, a model or diagnostics.
-- - Provider/Configure (internal/provider/provider.go): `Configure` as `configure`, over the
--   environment, the files and a `Network`. Its response is the diagnostics and the client.
-- - Provider/Clients: `Metadata` and `Configure` of the resources and of the data source, and the
--   lists of the provider. Each method keeps the client that the provider hands out.
-- - Provider/RoleResource (internal/provider/scylla_resource_role.go, scylla_data_source.go),
--   Provider/GrantResource (scylla_resource_grant.go), Provider/TableGrants and
--   Provider/KeyspaceGrants (scylla_resource_table_grants.go, scylla_resource_keyspace_grants.go),
--   Provider/Domains (domains.go), Provider/Validators (scylla_resource_grants_validators.go):
--   `Create`, `Read`, `Update`, `Delete`, `ImportState` as functions of these names.
-- - RoleResource/Life and GrantResource/Life have the calls of their handlers as steps of a relation.
-- - Provider/Lifecycle: the calls that Terraform makes of the handlers of a grants resource, as steps
--   of a relation, over an interface that TableGrants/Lifecycle and KeyspaceGrants/Lifecycle fill.
-- - Provider/Schema (the `Schema` methods of internal/provider): attributes, blocks and validators as
--   data. `IsTyped` says that a model's `tfsdk` tags fit a schema, `IsAdmitted` what the validators
--   are documented to let pass; `strings.EqualFold` is `equal_fold` of Go/Strings.
-- - Testutil/Cert (internal/testutil/certutil.go): `GenerateCert` as `generate_cert`, from what it asks
--   for in `template`, and `SaveToFiles` as `save_to_files`, over the parameter `Tools`. Cert/Trust and
--   Cert/Files say what is relied on of x509 and of the files.
-- - Testutil/Container (internal/testutil/testutil.go): the two helpers over the parameter `Docker`, with
--   `testing.T` as its registered cleanups and failures. Container/Run is a test from its first call
--   to its last cleanup.
-- - Tests/*: concrete tables and databases, and runs of the theorems on them.
--
-- The loops walk a list that was built before, so they are structural recursion. Only the digits of
-- a number are written on fuel, one more than the number, and Go/Strconv/Read reads them back.
-- A slice is a list, so a nil one is the same as an empty one, except where a handler makes a list of
-- the memberships of a role, which is null for a nil slice. A template over string fields does not
-- fail.
--
-- Not modelled: the command line and logging.
pub mod Base
pub mod Go
pub mod Cql
pub mod Scylladb
pub mod Provider
pub mod Testutil
pub mod Tests
