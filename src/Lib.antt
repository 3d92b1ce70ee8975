-- ===== src/Lib.antt =====
-- nrlsmf: Simplified Multicast Forwarding with Elastic Multicast, a verification library.
--
-- nrlsmf forwards multicast packets in a wireless network. A packet arrives many times, so the
-- forwarding plane (src/common/smf.cpp) asks a duplicate detector (src/common/smfDpd.cpp) before it
-- forwards; hosts that send packets without a sequence number get one from a sequence manager of the
-- same file. With Elastic Multicast, routers send each other messages (src/common/elasticMsg.cpp) on
-- the flows that they want, advertise and have lost packets of, and packets wait in queues
-- (src/common/smfQueue.cpp) for each neighbour.
--
-- What is modelled, and where:
--
-- Dpd/Links: the doubly linked list of SmfFlow::List (include/smfDpd.h). Flows stand at addresses of
-- a store, each with its `prev` and `next`; an operation takes the store and returns it changed.
-- AppendToList, RemoveFromList, MoveToTail are append_to_list, remove_from_list, move_to_tail.
--
-- Dpd/Flows: SmfFlow::List as a whole, the linked list with the key tree and the count: Append,
-- Remove, Find, and the loop of the two Prune methods, which runs at most once for each flow counted.
--
-- Dpd/Window: SmfDpdWindow::Flow, the window over the sequence numbers of one flow; `is_duplicate` is
-- its IsDuplicate with the 32-bit arithmetic written out, Dpd/Window/Ideal the ideal window.
--
-- Dpd/OldWindow: SmfSlidingWindow (include/smfWindow.h, src/common/smfWindow.cpp), the older form.
--
-- Dpd/Table: one flow of SmfDpdTable, with its PacketIdTable: IsDuplicate, SetPktId, Append and
-- RemoveHead, over the entries and the entry pools that the flows share.
--
-- Dpd/Detector: SmfDpdWindow, which finds the flow of a packet and asks its window.
--
-- Dpd/Sequence: SmfSequenceMgr, IncrementSequence, GetSequence and Prune.
--
-- Forward: Smf::ProcessPacket (src/common/smf.cpp) on IPv4 packets, in the default build. Forward/Packet
-- has the checks and the ids of a packet, Forward/Macs IsSelector and IsNeighbor, Forward/Plane the
-- interfaces and the loop over the associates of the arrival interface, Forward/Process the whole call;
-- the modules beside them have the proofs. The duplicate detector of an interface is a parameter of
-- these definitions; Forward/Window has them with the SmfDpdWindow that Interface::Init makes.
--
-- Fib: the state that MulticastFIB (include/mcastFib.h, src/common/mcastFib.cpp) keeps of a flow, in
-- the build with elastic multicast: Fib/Bucket is TokenBucket, Fib/Activity ActivityStatus,
-- Fib/Relay UpstreamRelay, and Fib/Entry the Entry that holds them. Fib/Lists has ActiveList, and
-- Fib/Flows the lists of active and idle flows with PruneFlowList. Times are readings of a counter
-- of 32-bit ticks; the proofs compare them with true times, of which Fib/Ticks has the readings.
--
-- Queue: SmfQueue and SmfQueueBase (include/smfQueue.h), with Queue/Key for BuildKey and FindQueue.
--
-- Wire: packet buffers, and memcpy on them. Elastic: the messages of include/elasticMsg.h; Elastic/Ack,
-- Elastic/Adv and Elastic/Nack hold the three classes, and the modules beside them the proofs.
--
-- Base: shared names, tests, lists, 32-bit words and the laws of bit operations.
--
-- Protolib is not part of the repository. Four of its classes are parameters, each a record of
-- operations with a record of the laws that the code relies on: ProtoSlidingMask (Dpd/Mask), ProtoTree
-- (Dpd/Tree), ProtoListTemplate with its pool (Queue/Store), ProtoPkt with the addresses (Wire). A
-- concrete instance of each, in Dpd/Sample, Dpd/SampleTree and Dpd/SampleKeys, Queue/Tests and
-- Wire/Sample, meets the laws, and the tests run on it. A fifth, ProtoTree::ItemPool (Dpd/Table), is a parameter without
-- laws. The tree of token buckets has a record of its own (Fib/Entry/Buckets), since the code walks
-- through it as well. What `new` and `rand` return, and the time, are arguments.
--
-- Numbers are natural numbers with the wrap-around of their C type written out. The pruning loop
-- runs on fuel, the count of the list, which is the number of its flows. So does the loop that makes
-- room in a flow of SmfDpdTable, on one more than its count, which each turn lowers by one. The
-- loops of PruneFlowList run on the counts of their lists, of which each turn takes an entry. The
-- search for a MAC address runs on the length of the list, of which each turn takes an address.
--
-- Not modelled: the flow list and the pruning of SmfDpdTable, SmfCache, IPv6 packets and the builds
-- with elastic multicast or adaptive routing in smf.cpp, its interface groups and timers, the rest
-- of mcastFib.cpp and flowTable.cpp (the match of flows with the table, ParseFlowList, memberships,
-- the controller), hashes, R2DN messages and the smart controller, which remain to be done; the
-- encoding of the metric as a floating point number; the program's input and output, and the OPNET
-- port.
pub mod Base
pub mod Dpd
pub mod Queue
pub mod Wire
pub mod Elastic
pub mod Forward
pub mod Fib
