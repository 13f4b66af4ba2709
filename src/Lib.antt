-- ===== src/Lib.antt =====
-- FavorX: the settlement of traffic, the topology's bins, the address metric, the routes to far nodes,
-- the queue of nodes to ask, the guards of the network, and the feeder of files.
--
-- A node meets other nodes, sorts them into bins by the proximity of their addresses, and keeps an
-- account of the traffic that it has had from each (retrieved) and given to each (transferred). When
-- what is not paid reaches a threshold it issues a cheque; cheques that come in are checked, stored
-- and later cashed on the chain.
--
-- Boson (pkg/boson): Boson.antt has Proximity and ExtendedProximity with their two loops (`scan`,
-- `first_bit`) and Address.MemberOf; Boson/Distance.antt has DistanceRaw, Distance, DistanceCmp and
-- Address.Closer. An address is a list of bytes; a byte is a number, and where a theorem needs it to
-- be below 256 it says so.
--
-- Topology (pkg/topology/pslice/pslice.go): Topology/PSlice.antt has every method of PSlice. Bins
-- are a list of lists. EachBin and EachBinRev take the callback as a function on a state; they
-- lock each bin only to read it, so that their slice stands for the bins as they were read.
-- Topology/LightNode.antt has pkg/topology/lightnode/container.go on top of it, and
-- Topology/Depth.antt the depth of pkg/topology/kademlia/kademlia.go (recalcDepth, binSaturated).
--
-- Chunkinfo (pkg/chunkinfo): Chunkinfo/Queue.antt has the queue of the nodes that are asked
-- what chunks they hold, with queueProcess and updateQueue; Chunkinfo/Timeout.antt has
-- timeouttrigger.go, which puts a node back that has not answered. Chunkinfo/Queue/Moves.antt has the
-- calls of several goroutines on one queue, in any order.
--
-- Routetab (pkg/routetab): Routetab/Table.antt has the table of the paths to nodes
-- that are not neighbours, and of the routes that lead along them. The hash of a path is a function,
-- an argument. Routetab/Table/Parts.antt has the parts of the methods, in any order. Routetab/Exchange.antt has the paths
-- that are passed on, and Routetab/Pending.antt has pending.go, the requests that wait for an answer.
--
-- File (pkg/file/pipeline/feeder/feeder.go): File/Feeder.antt has the writer that divides a file into
-- chunks; the next writer of the pipeline is an argument with a state of its own.
-- File/Feeder/Reference.antt has a feeder that takes single bytes, with which it is compared.
--
-- Network (pkg/blocker, pkg/p2p/libp2p/internal): Network/Blocker.antt has blocker/blocker.go, which
-- blocklists peers that stay flagged for too long, and Network/Blocklist.antt has
-- blocklist/blocklist.go, the list that such a call writes to. Network/Breaker.antt has
-- breaker/breaker.go; Network/Time.antt what they use of Go's time package. `before_f` and `after_f` are the two locked
-- parts of Execute, and `run` is any order of such steps. Durations wrap at 64 bits where the code
-- doubles them.
--
-- Settlement (pkg/settlement/traffic, pkg/accounting): Settlement/Cheque.antt has the cheques and
-- the errors; Settlement/ChequeStore.antt has cheque/chequestore.go; Settlement/Traffic.antt has
-- traffic.go, with the refresh of one peer's record in Traffic/Refresh.antt, queries and cashing in
-- Traffic/Queries.antt, Handshake in Traffic/Handshake.antt, with what others do between its
-- parts as an argument, and trafficInit in Traffic/Init.antt;
-- Settlement/Accounting.antt has accounting.go over an interface of settlements, which
-- Accounting/OverTraffic.antt fills with the traffic service. traffic.go works in place on *big.Int
-- objects, and so Settlement/Heap.antt gives each object a place: two fields that hold one place
-- share the object.
--
-- Base: lists, bytes, bits, integers, maps. A Go map is an association list; an operation that a
-- lock protects is one step, and where no lock spans an operation the parts can be interleaved as
-- said above. Calls of the state store, the signer, the chain, the network and the
-- clock are arguments that hold their answers: `none` or `ok` where they work, an error where they
-- fail. The recovery of a cheque's signer is a function, an argument too.
--
-- Only the loop of the feeder's Write uses fuel, as many rounds as there are bytes; each round takes a
-- byte at least, and the theorems on Write show that it ends. Every other loop is recursion on a list,
-- or on the number of rounds that the code's bounds give it. RandomPeer's loop, which has no bound, is recursion on the list of the
-- numbers drawn.
--
-- Not modelled: the text of the keys of the state store, publishing to subscribers, logging and
-- metrics, the growth of slices ahead of time, the limit of the channel of payments, and the other
-- packages of the repository (the exchange of routes, the rest of chunk information, storage, the
-- rest of the files, the network service and the HTTP interfaces).
--
-- The files named Tests run the operations on small inputs and apply the theorems to them.
pub mod Base
pub mod Boson
pub mod Chunkinfo
pub mod File
pub mod Network
pub mod Routetab
pub mod Settlement
pub mod Topology
