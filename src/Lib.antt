-- ===== src/Lib.antt =====
-- The routing and tunnel protocols of ranet-lite.
--
-- ranet-lite connects hosts by IPsec tunnels in userspace: ike negotiates the keys of a tunnel, esp
-- carries its packets, and internal/babel speaks the Babel routing protocol over all tunnels and
-- decides which tunnel a packet takes. A speaker reads a packet of TLVs from one neighbor, updates the
-- neighbor's Hello history and costs, offers each Update to the route table, and the route table asks
-- the source table whether a route is feasible, selects a next hop, and tells the forwarding table.
-- What it then advertises goes through the source table first, which the feasibility condition reads.
-- The forwarding table that sadr keeps answers, for each packet, which next hop its source and
-- destination address have.
--
-- Which file models which part, each with its theorems in the modules below it:
--   Babel/Metric    seqnoGT, saturatingAdd, scaleCost, RTTPenalty, microDelta (internal/babel/route.go,
--                   rtt.go, etx.go)
--   Babel/Hello     helloHistory and the ETX costs (internal/babel/etx.go)
--   Babel/Neighbor  neighborState, liveness and linkCost (internal/babel/neighbor.go)
--   Babel/Tlv       packets, TLVs and sub-TLVs (internal/babel/tlv.go)
--   Babel/Messages  Hello, IHU, Router-Id, Next Hop, acknowledgments (internal/babel/hello_ihu.go,
--                   misc.go, tlv.go)
--   Babel/Prefixes, Babel/Update    the Update TLV and PrefixDecoder (internal/babel/update.go)
--   Babel/Raw       the IPv6 and UDP headers (internal/babel/rawpacket.go)
--   Babel/Request   Route and Seqno Requests (internal/babel/request.go)
--   Babel/Keys, Babel/Source        the source table and feasibility (internal/babel/source.go)
--   Babel/Route     the types of the route table (internal/babel/route.go); Route/Select is
--                   selectRoute, Route/Table the operations around it
--   Ike/Header      the IKEv2 header (ike/header.go)
--   Ike/Payload     payload chains and whole messages (ike/payload.go)
--   Ike/Proposal    SA payloads (ike/payloads_sa.go)
--   Ike/Bodies      the other bodies (ike/payloads_misc.go)
--   Esp/Replay      the anti-replay window (esp/replay.go)
--   Sadr            the forwarding table (sadr/table.go): Sadr/Address the bits of an address,
--                   Sadr/Sources the sources of one destination with their index, Sadr/Trie the trie,
--                   Sadr/Table the operations
--   Examples        the theorems at concrete inputs
--   Prelude         names, lists, results, bytes, bits and association lists that the parts share
--
-- How the state and the operations correspond. A struct is a record with the source's field names in
-- lower case; a method takes the record and returns the new one. Byte slices are lists of numbers, and
-- integers are natural numbers with the wrap-around of their width written out. A map is an association
-- list, in the order in which one pass over it meets its keys, or a function where only counts are kept;
-- a neighbor is a number that stands for the pointer to its state, and `net` gives the state. Times and
-- durations are nanoseconds, with 0 for the zero time. Errors are values of a data type; a panic of an
-- encoder is `none`. The calls of the callbacks install and forget are a list, oldest first. The float64
-- operations of smooth and of the selection are a record of parameters, of which nothing is assumed. A
-- [16]byte address of sadr is the number that its bytes are, and a nil pointer of its trie a constructor;
-- whether removeValue gives back the same pointer is a Boolean beside the trie. The lock, the atomic
-- pointer and the lazy building of an index are left out: an operation reads one snapshot.
--
-- Bounds and fuel. The loop over TLVs has one round for each byte that is left, and each round takes at
-- least one; the loops over payloads, proposals, attributes and SPIs have one round for each byte too.
-- The grouping of sources by length has one round for each source, and each takes one at
-- least. The fold of the UDP checksum has two rounds, which bring 32 bits down to 16. Everything else
-- is by recursion on a list, a trie or a number.
--
-- Not modelled: goroutines, sockets, clocks and logging; the sending side of the speaker; the CERT,
-- AUTH and SK payloads and the exchanges of IKE; the ciphers; SRv6; the kernel, egress, control,
-- client and configuration packages.
pub mod Prelude
pub mod Babel
pub mod Ike
pub mod Esp
pub mod Sadr
pub mod Examples
