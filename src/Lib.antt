-- ===== src/Lib.antt =====
-- lbsync keeps files of a fleet of load balancers in step: every node publishes its own copies to
-- a cluster, picks the newest copy of each, writes it in place and runs a verify and a reload
-- command.
--
-- The parts, and the files here that model them:
--   Version, Engine: internal/engine/engine.go. `newer` is Version.Newer, `pick_newer` pickNewer,
--     `gather_keys` gatherKeys, `maybe_publish` maybePublish (its second half is `publish`,
--     `recheck` and `put_record`), `tick_provider` tickProvider (`tick_key` is one round of its
--     loop, `settle` its end), `reconcile` and `run` reconcile and Run. The interfaces Provider and
--     ClusterKV are records of functions on the state of a node and of the cluster.
--   Disk, AtomicFile: internal/atomicfile/atomicfile.go over the calls of package os. `write_atomic`
--     is WriteAtomic, `restore` Restore, `copy_file` copyFile, and `restore_dir` in AtomicFile/Directory
--     RestoreDir.
--   Hook: internal/hook/hook.go. `run` is Runner.Run, `exec` Runner.exec.
--   Metrics: internal/metrics/metrics.go, the collectors and what the engine reports to them.
--   Blob: internal/modules/blob/blob.go. `start` is Module.Start, `local`, `apply`, `flush` and
--     `rollback` are the methods of the provider, which is an instance of Provider.
--   Wan: internal/wan/wan.go and internal/wan/handler.go. `get`, `put`, `all_keys` and `members` are
--     Get, Put, Keys and Members, `serve` is newMux with the handlers `handle_put_record` and so on.
--     Wan/Cluster makes the backend the cluster of an engine, and Wan/Node is a node with its ticks and
--     the requests of its peers. Wan/Tls is internal/wan/tls.go, and Wan/Start is New.
--   Cluster: internal/cluster/cluster.go. `get`, `put`, `keys`, `lock` and `members` are the methods
--     of Cluster, `open_dmap` is dmap, `read_index` and `add_to_index` readIndex and addToIndex,
--     Cluster/Start is NewCluster. Cluster/Race is addToIndex on many nodes, call by call.
--   Module: internal/module/module.go and internal/modules/stubs/stubs.go. `register`, `registered`
--     and `build` are Register, Registered and Build; Module/Blobs is the module of blob.go
--     and Module/Lineages that of certs.go.
--   Paths: filepath.Clean and filepath.Join. Cert: internal/cert/cert.go. `load` and `load_key` are Load
--     and LoadKey, `primary_domain` PrimaryDomain.
--   Bundle: internal/bundle/bundle.go. `compare` is Compare; in Bundle/Files, `write_bundle` is
--     WriteAtomic with the loop `write_parts`, `read_lineage` ReadLineage, `rollback_bundle` Rollback.
--   Discovery: internal/discovery/certbot.go and internal/discovery/discovery.go. `scan_all` is ScanAll,
--     `merge_entries` mergeEntries.
--   Certs: internal/modules/certs/certs.go. `to_record` and `from_record` are toRecord and fromRecord,
--     and the methods of the provider have their names.
--   Main: parseList, parseBlobResources, buildClusterConfig and startModules of
--     cmd/lbsync/main.go. Main/Load is loadConfig with its flags. In Main/Run, `start_cluster` is the part
--     of run that starts the cluster, and `answer_http` the handlers of newHTTPServer; Main/Process is run.
--   Prelude: texts, integers, decimal digits, results, calls that change a state, maps and sorting.
--     Tests: the theorems at concrete inputs.
--
-- The engine calls providers and the cluster in a fixed order and passes their states on. The
-- blob provider calls AtomicFile on the files of its machine and Hook for its commands. The law
-- of a cluster that the engine relies on is `IsStore` in Engine/Store: a map whose writes may
-- fail. Its form for a cluster that holds records at some places only is `IsStoreOn` in
-- Engine/Store/Guarded, and Cluster/Plain/Store and Wan/Cluster/Store are about the two backends
-- as such clusters; `IsForward` there asks for less, and allows that Get knows more than is held.
-- Cluster/Plain is about the keys that Olric's maps do not reserve. What internal/cluster relies
-- on of the maps of Olric is `IsOlric` in Cluster/Laws, and `Answers` in Cluster/Plain if they
-- can be reached. Engine/Fleet is many nodes that run over one cluster, tick by tick, and
-- Engine/Race maybePublish on many nodes, call by call.
--
-- What comes from outside is a parameter: which call of package os fails and how much a failing
-- write has written, the names of temporary files and the modification times (`Os`), how a command
-- ends (`Commands`), the hash, the clock, the order in which a range visits a map, the gob codec
-- (`Codec`), the client of Olric (`Olric`), PEM and X.509 (`X509`), TLS (`Crypto`), directories and
-- symbolic links (`Tree`), the answers of the peers (`Peers`), the decoder of base64, and whether
-- an address can be listened on, what envconfig reads of the environment, and the readers of
-- integers and durations, and which values WithLabelValues and ValidString accept. Texts are lists of characters. Go's integers are compared, and
-- printed and read in decimal with the bounds of 64 bits; they are unbounded here. No function needs fuel,
-- but for the digits of a number, where the number's successor bounds their count. Run is modelled
-- for any number of ticks before it is cancelled, and a context is cancelled only between ticks.
--
-- Not modelled: the values of the metrics, and serving through net/http. Encode and Decode of
-- internal/gobcodec are calls of encoding/gob, and part of `Codec`.
-- The texts of errors are kept without the quotation marks of %q and without the output of commands.
-- Of what is logged, only the lines of the stub modules are kept.
pub mod Prelude
pub mod Version
pub mod Engine
pub mod Paths
pub mod Disk
pub mod AtomicFile
pub mod Hook
pub mod Metrics
pub mod Blob
pub mod Wan
pub mod Cluster
pub mod Module
pub mod Cert
pub mod Bundle
pub mod Discovery
pub mod Certs
pub mod Main
pub mod Tests
