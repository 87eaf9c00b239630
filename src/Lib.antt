-- ===== src/Lib.antt =====
-- domux: the core logic of the domux reverse proxy, a program that discovers containers, proxies
-- their services under managed domains, keeps DNS records at the public address and holds
-- certificates.
--
-- How the parts interact. Containers are read as snapshots, whose labels and networks are turned into
-- routes (Discovery); the routes fill a table by host that answers requests (Proxy/Http), with
-- certificates chosen by host (Proxy/Tls). Managed zones say which domains are served and which
-- certificates are planned (Core). The DDNS service brings the records of a zone to the detected
-- addresses (Ddns), naming them by authoritative zone (Dns), and remembers what it did in the
-- memory store (Store), which also holds the state that the management interface shows. Jobs run
-- these tasks at intervals (Job), and a pool keeps the nodes that run agents (Agent). The
-- configuration is read, checked and written by its manager (Config), which the registry of DNS
-- providers serves (Providers); certificates are requested, kept and deployed (Certs), and the program
-- puts the parts together (Program).
--
-- The files, and the sources that they model:
--   Prelude, Text, Mapping, Sort: numbers, Go's strings, maps and sort; Text is a list of code
--     points, and a map is an association list in its iteration order.
--   Core/Types, Core/Names, Core/Zone, Core/Runtime, Core/Bundles: internal/core/types.go. Core/Zone
--     has Hostname, Validate and CertificatePlans, Core/Runtime has RuntimeSource's methods, and
--     Core/Bundles the bundles that the plans ask for and the other Validate methods.
--   Store: internal/platform/store/store.go, a record with a map per table and a function per
--     method; Store/Calls has sequences of calls, Store/Keyed and Store/Tables the keys of
--     the tables, Store/SyncStates those of DDNS states.
--   Dns/AuthZone: internal/dns/authzone/resolver.go.
--   Dns/RecordName: internal/ddns/provider/record_name.go.
--   Ddns/Errors: internal/ddns/provider/errors.go.
--   Ddns/Service: internal/ddns/service/service.go; sync_record is syncRecord and sync_zone is
--     SyncZone, by the passing of a world that holds the stored states and the calls of Upsert.
--   Ddns/Detection: internal/ddns/ipdetect/ipdetect.go.
--   Discovery/Labels, Discovery/Target, Discovery/Routes: internal/discovery/docker/discovery.go, in
--     the order of the source.
--   Proxy/Http: internal/proxy/http/server.go. Proxy/Tls: internal/proxy/tls/store.go.
--   Job: internal/platform/job/scheduler.go; Job/Exclusion has the interleavings of runs.
--   Agent/Pool: internal/agent/pool/pool.go.
--   Files: writeAtomically of internal/certs/store/store.go.
--   Config, Config/File, Config/Checks: internal/platform/config/config.go; unmarshal and marshal are
--     UnmarshalYAML and MarshalYAML, and validate_config is Validate, by sections.
--   Config/Manager: internal/platform/config/manager.go, with LoadFile.
--   Providers/Options, Providers/Registry: internal/ddns/provider/provider_options.go and provider.go.
--   Providers/Clients, Providers/Spaceship, Providers/Upserts: the constructors and the Upsert methods of
--     internal/ddns/provider/cloudflare.go, alidns.go, godaddy.go and spaceship.go.
--   Certs/Deploy: internal/certs/deploy/service.go. Certs/Requests, Certs/Ensure and Certs/Challenge:
--     internal/certs/acme/manager.go.
--   Program: cmd/domux/main.go; Program/Routes has the routes of custom apps, Program/Applications the
--     list of applications, Program/Selection what requests select, and Program/Refresh the jobs.
--   Tests: the theorems at concrete values.
--
-- Code that the repository does not hold is a parameter: the lookup of NS records, the parser and the
-- printer of URLs, the environment of the process, the test for a file, the table of lower-case
-- letters above ASCII, an updater's answer and an agent's, the YAML library, the file system, the
-- ACME library and the requests of the DNS services. Methods that hold a lock for all of
-- their body are one step. Where a function takes the lock more than once, it is modelled for runs
-- between which no other step comes, except for the runs of jobs. Integers of the source are unbounded
-- here, since it adds only to counters below a constant. Loops are structural recursion, but for two on
-- fuel: the printer of decimals, which has more of it than the number has digits, and the pages of
-- Spaceship's records, for which one round more than there are records is enough.
--
-- Not modelled: the requests and signatures of the DNS clients, the account and the order of the ACME
-- library, the deployers, the agents, the management interface and the container client, which are input
-- and output; the wiring of the programs.
pub mod Prelude
pub mod Text
pub mod Mapping
pub mod Sort
pub mod Store
pub mod Core
pub mod Dns
pub mod Ddns
pub mod Discovery
pub mod Job
pub mod Agent
pub mod Proxy
pub mod Providers
pub mod Files
pub mod Config
pub mod Certs
pub mod Program
pub mod Tests
