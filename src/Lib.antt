-- ===== src/Lib.antt =====
-- A verification library of mydocker, a container runtime in Go with a daemon, a shim for each Container and a
-- durable state. It models the value types and state machines that the daemon's decisions rest on.
--
-- Domain is internal/domain. It has the two graphs of phases (SandboxPhase, AttemptPhase from phase.go), the
-- resource policy (Resources from resources.go), the process and its kill plan (Process from process.go), and from
-- model.go the outcome of a workload (Outcome), conditions and lifecycle observations (Conditions), the Sandbox with
-- its methods (SandboxSpec, Sandbox), and the Container with its Attempt (Container, ContainerAttempt,
-- ActiveAttempt). A Go method with a pointer receiver is a function from the state and its arguments to the state that
-- it leaves and its check; Transition is `transition`, SetProcessIdentity is `set_process_identity`, UpsertCondition is
-- `upsert`, ClearCondition is `clear`, and so on. `Operations` gathers the methods of a type in one data type with
-- `apply` and `run`, the runs of any sequence of calls.
--
-- Operation is internal/operation. Vocabulary and Target have the bounded words, targets, fingerprints and sequences,
-- Record the durable record of an operation, Event the stream of events (model.go), and Resolve what a retry does and
-- which operations conflict (resolve.go). Go's operation.Type is `Verb` and operation.Result is `Outcome`. Whether bytes
-- are one unambiguous JSON value is strictjson.Decode's answer, the parameter `decodes` of Record, Event and Resolve.
--
-- Rollback is internal/rollback. Diagnostic has boundedDiagnostic and Cause, Record the descriptors and the
-- persistent records with RecordFailure, Stack the methods Push, Begin, Snapshot and Pending, Run the method Run with its
-- report, and Recovery the function Restore. An inverse is a function on a type `World` of everything outside the
-- stack, which answers its error; the mutex is not modelled, and an inverse does not call the stack that runs it.
--
-- Ownership is internal/ownership: Vocabulary has the providers, the kinds of resources and the actions of their inverses,
-- Receipt the owners, receipts and releases with their validation, Inverse InverseDescriptor and
-- ReceiptFromDescriptor, and Profile the receipts that a complete and a partial profile have, in their order. The token of an
-- owner, which the code computes with SHA-256, and the JSON of a receipt are parameters of these modules.
-- Provider is the part of internal/provider/observation.go that the stores use: Observation has the observations of a
-- resource, Oom the counters of an Attempt cgroup and OOMSnapshot.Delta.
--
-- State is the store in memory of internal/state. Records has the envelopes (store.go, schema.go) and `Codec`, the parameters for
-- what the code calls of encoding/json, crypto/sha256 and internal/strictjson. Advance, RollbackAdvance, Receipts, Links
-- and Validation have the checks of one record, alone and against the one that it replaces, Same the comparisons by
-- reflect.DeepEqual, and Graph and Whole those of memoryData.validate over the whole store (memory.go). Store
-- has memoryData and the reads of a view, Transaction and Progress its writes: a method answers the view that it
-- leaves beside its value or error. Retention is retention.go. Memory has View and Update: a callback, func(Tx) error, is the
-- tree of the calls that it makes and of its reads, so it sees each answer before it makes the next call; the errors of the
-- context are Boolean arguments. A callback does not use a view that Update has closed.
-- Write is the step relation of accepted writes, Reachable the stores that sequences of Update reach, and Invariant
-- has what holds of these. A Go map is the list of its entries, `Dict` of Base/Maps: `insert` replaces, and a loop over a map
-- takes the order of the list.
--
-- Cgroup is internal/cgroupv2/types.go. Limits has planLimits, with the quota in cpuQuotaMicros and the rounding in
-- roundMemoryToPage, Counters the OOM counters. A uint64 is a natural number, and its sums and products are taken modulo 2 ^ 64;
-- the operator & is `bit_and` of 64 bits.
--
-- LogStore is the format of internal/logstore and the recovery of its files. Bytes has the big-endian numbers of
-- encoding/binary, Frame the frames of types.go, Codec encodeFrame and decodeFrame of format.go, Scan the walk scanFramePage of store.go over the bytes of
-- a file, whose fuel is one more than their count, and Store the method Append, where a write or a synchronization may fail
-- once some bytes of the record are in the file, or leave other bytes in place of its commit marker. Scan/Log says what a file of
-- frames holds without the walk; SHA-256 is a parameter.
--
-- Text models what these packages use of the Go library: strings are lists of bytes, `runes` is the decoding of a
-- range loop, and Trim, FilePath, Address, Repair and Json have strings.TrimSpace, filepath.IsAbs with filepath.Clean, net.ParseIP,
-- strings.ToValidUTF8 and json.Valid.
-- Base has the shared tests on native numbers, decidable equality, lists, results and the integers of int64 fields.
--
-- An enumerated string of Go is a data type whose last constructor stands for the other spellings. An int64, an instant or
-- a duration is a ℤ: outside Cgroup none of the code modelled here computes with them, it only compares and copies. A uint64 sequence
-- is a natural number with the bound written out where it is increased. A map of labels is a list of pairs, in the order
-- in which a range loop meets them. Errors keep their code and field and leave out the message. Values are never shared,
-- so the deep copies of Clone are left out, and so are nil receivers and String methods. All loops are structural
-- recursion on the list that they range over, but for the walk of LogStore, which has fuel, and `bit_and`, which recurs
-- on its 64 bits.
--
-- Not modelled: the store in files (internal/state/file.go), which replaces a file and locks it, the coordinator and the engine
-- (internal/lifecycle, internal/engine), the API types and the client, and the parts that are system calls (internal/isolation,
-- internal/shim, internal/slim, the files of internal/cgroupv2, internal/server, cmd). They stand on the packages above. Of internal/ownership,
-- SortReceipts and the digest of evidence; of internal/provider, the interfaces of the providers and their capabilities; of
-- internal/logstore, the paths, the locks and the descriptors of its files.
pub mod Base
pub mod Text
pub mod Domain
pub mod Operation
pub mod Rollback
pub mod Ownership
pub mod Provider
pub mod State
pub mod Cgroup
pub mod LogStore
