-- ===== src/Lib.antt =====
-- A verification library for mev-boost, the middleware between an Ethereum consensus client and
-- a set of relays.
--
-- The program. The consensus client calls three JSON-RPC methods of the relay service
-- (lib/service.go). ForkchoiceUpdatedV1 sends the call on to every relay and keeps the payload
-- ids that they give in the store, under a fresh id of its own. GetPayloadHeaderV1 asks those
-- relays for their payloads, keeps the one with the best fee, checks or computes the root of its
-- transactions (lib/txroot) and puts it into the store. ProposeBlindedBlockV1 reveals a payload
-- by its block hash, from the store (lib/store.go) or from a relay. A goroutine cleans the store
-- up.
--
-- The files.
-- - Types: lib/types.go, the messages and payloads. A hash or an address is a list of bytes, a
--   pointer is an Option, a *big.Int is an optional integer.
-- - Store: lib/store.go. The state is the record Store of two maps; get_execution_payload,
--   set_execution_payload, get_forkchoice_response, set_forkchoice_response and cleanup are
--   GetExecutionPayload and so on, each one function of the state as under its mutex, with the
--   time as an argument; cleanup_payloads and cleanup_responses are the two parts of Cleanup,
--   with a time for each turn of their loops. Store.Interface is the interface Store as
--   operations with laws, Store.InMemory fills it, Store.Cleanup is about Cleanup, Store.Run is
--   NewStoreWithCleanup as a step relation, Store.Available is about how long a payload stays.
--   Store.Mutex is sync.RWMutex as the store uses it; Store.Mutex.Counts, Store.Mutex.Exclusion
--   and Store.Mutex.Guarded are about any data under such a mutex. Store.Locks is lib/store.go
--   once more, with its mutexes: Store.Locks.Moves has the moves of a goroutine in an operation
--   (a call of a mutex, a read or a write of a map, a turn of a loop), Store.Locks.Machine any
--   number of goroutines; Store.Locks.Payloads and Store.Locks.Responses say what a move is to
--   each of the maps, Store.Locks.Linear relates the moves to operations at once,
--   Store.Locks.Exclusion is about goroutines in the same part, Store.Locks.Enabled,
--   Store.Locks.Progress and Store.Locks.Termination about the end of the operations.
--   Store.References is the store with references to the maps inside the containers, which
--   GetForkchoiceResponse hands out: Store.References.Owners says whose map is whose,
--   Store.References.View and Store.References.Refines relate it to the store of values, and
--   Store.References.HandedOut is about a map that was handed out. Store.Abstract is what the
--   interface promises, as two partial functions, and Store.Abstract.Refines is about the store
--   as an implementation of it.
-- - Payload: lib/gen_ed.go, marshal_json and unmarshal_json; the codec of encoding/json is a
--   parameter.
-- - Rpc: lib/jsonrpc.go, and makeRequest of lib/service.go over net/http as a parameter. A reply
--   is the pair of a pointer and an error, since the handlers look at the two apart.
-- - Txroot: lib/txroot/txroot.go, hasher.go and zerohashes.go. Txroot.Depth is Depth,
--   Txroot.Merkle is Merkleize and BitwiseMerkleize with the array tmp and the loop of merge,
--   Txroot.Merkle.Termination is about its loops, Txroot.Root is packChunks, transactionRoot,
--   MixInLength and TransactionsRoot, Txroot.Root.Ends is about the loops of TransactionsRoot,
--   Txroot.ZeroHashes is the table, Txroot.Hasher is HasherFunc with its buffer. Txroot.Memory
--   is packChunks once more, with slices as windows of arrays in memory and the append that
--   writes behind them. There SHA-256 is a parameter. Txroot.Hash is lib/txroot/hash.go: Hash,
--   HashKeccak256 and the closure of CustomSHA256Hasher over the two pools, whose kinds of
--   hashers are parameters of the type Digest; Txroot.Hash.Sequences is about sequences of calls
--   of the closure.
-- - Service: lib/service.go. Service.Forkchoice, Service.Header and Service.Propose are the
--   three handlers over any store that keeps the laws of Store.Interface;
--   Service.Forkchoice.Accepted says which replies of a relay are accepted,
--   Service.Forkchoice.Replies and Service.Forkchoice.Stores are about the handler by these
--   replies, Service.Header.Root is about the call of TransactionsRoot, Service.Header.Accept
--   about one reply, Service.Header.Fees about the comparison of fees, Service.Header.Best about
--   the loop, Service.Header.Choice about the whole handler, Service.Header.Writes about what it
--   writes into the store, Service.Reveal about the two last handlers together, Service.Channel
--   about the channel through which the replies reach these two. Service.System is the running
--   service: any number of calls at once, as a step relation. Service.System.Authentic is about
--   what the store holds and reveals, Service.System.Retained about the time between two
--   cleanups, Service.System.Frozen about the responses under an id that was answered,
--   Service.System.Frozen.Waits about wg, Service.System.Handlers has two of the handlers as
--   runs of the service, for the tests.
-- - Router: lib/router.go, new_router over gorilla rpc and mux as the parameter RpcLibrary.
-- - Command: cmd/mev-boost/main.go, get_env and main; Command.Entries is the reading of the
--   comma-separated urls, with Split and Trim.
-- - Common: shared names, tests, lists, maps, integers and permutations.
-- - The modules named Tests run the code at concrete inputs.
--
-- Concurrency. The relays are called at once. What the handlers see of it is the order in which
-- the goroutines write or the replies arrive; that order is a parameter, any permutation where a
-- theorem says so. Service.Channel is the channel of the replies, with a goroutine for each
-- relay. In Service.System the calls themselves interleave: a step is one goroutine's write, one
-- reply, one of the two parts of a cleanup, or the beginning or the end of a call, each with any
-- reply of the relays. The counter of wg is part of a call of ForkchoiceUpdatedV1; its
-- goroutines can outlive the handler, which waits for the counter to be zero. The handler adds
-- one to the counter for each goroutine before it waits; there that is one step. That a use of
-- the store is one step there is what Store.Locks is about: below it are the two read-write
-- mutexes, which Cleanup takes one after the other. The random id of a call of
-- ForkchoiceUpdatedV1 is none that a call has; eight random bytes make another one unlikely.
--
-- Errors. A handler returns its result beside an optional error, or panics: a nil pointer that
-- is followed is a value of Outcome. In Txroot an error, a panic and a loop that runs out of
-- fuel are the values of Result. The handler has no case for the last of these: it uses the
-- theorem that TransactionsRoot ends for every hash function.
--
-- Fuel and bounds. The loop of merge has 65 rounds, as it breaks at bit 64 of a uint64 at the
-- latest; the loop of packChunks makes one test more than there are bytes at most, and its
-- padding loop 33. Lengths of slices are below 2 ^ 63, as they are in Go; sizes of trees are
-- stated below 2 ^ 64.
--
-- Assumed of other code. Of SHA-256: that it returns 32 bytes and has the values that the table
-- ZeroHashes lists (HashLaws). Of encoding/json: that it reads back what it wrote (CodecLaws).
-- Of the timer of the cleanup goroutine: that it fires on time, and in Store.Run that a cleanup
-- takes no time. Of sync.RWMutex: that Lock keeps later readers and writers out and waits for
-- the readers, and that RLock waits for a writer. Of the Go runtime: that a new array for n
-- bytes has at least n. Of a hasher of the crypto libraries: that a new one and one that was
-- reset have read nothing, and that its sum has 32 bytes (DigestLaws). Of gorilla rpc and mux:
-- that a relay service is registered under a name that is free, and that a router serves what it
-- was handed (RpcLaws).
--
-- Not modelled. The folder forked/gorilla, which is another project's library; logging; the seed
-- of math/rand. The inner map of a forkchoice container is a value in all other places than
-- Store.References; a panic of the Go runtime at a loop over a map that another goroutine writes
-- to is not an outcome of the handlers; Store.References.HandedOut and Service.System.Frozen are
-- about who writes. Slices are values in all other places than Txroot.Memory. In
-- Store.References a write to a missing container leaves the store as it is, where it would
-- panic; SetForkchoiceResponse has made the container just before, and Store.Locks has the
-- panic. In goroutines and ask the reply of a relay is a function of its url and the call, so a
-- url that is listed twice replies the same; in Service.System every reply is arbitrary. The
-- JSON tags of lib/gen_ed.go are part of the codec's laws.
pub mod Common
pub mod Types
pub mod Store
pub mod Payload
pub mod Txroot
pub mod Rpc
pub mod Router
pub mod Command
pub mod Service
