-- ===== src/Lib.antt =====
-- Labyrinthus: an onion-routed network over UDP. Devices exchange self-describing records,
-- RSSObject, in packets; a record's layout is a line of text in a table.
--
-- src/objects/rssobject.cpp: Object. Object/Value has the data of an RSSObject: the type texts and
-- values are the rows, and a value is tagged with the form that the code casts its pointer to;
-- Object/Description is the constructor's search of the table and scan of a text; Object/Create is
-- allocation; Object/Encode and Object/Parse are the wire format; Object/Access is access by name,
-- copy, assign and compare, Object/RowAccess by number; Object/Dump is printDump as the text that
-- it prints, Object/Delete the destructor as the number of blocks that it deletes. The other proofs
-- are in Object/Fresh, Fields, RoundTrip, Copies, Typed, Safety, Names; Object/Taken and Reverse
-- go from the bytes to the object and back, with a record of what a reading of a field keeps, which
-- a count of bytes and their copy fill.
-- src/common/rs_defines.h and rs_defines.cpp: Defines (the constants and the struct table), with
-- the form of an object of a struct of the table in Forms; Safe and Bounds say what parse does on
-- the structs of the table.
-- src/utils/get_crc.cpp and ip.cpp: Checksum (get_crc and getCrc in Crc, ip_sum in InternetSum).
-- src/sockets/rs_socket.cpp: Socket. Socket/Packet has the state of an RSSUDPSocket, sending and
-- receiving; a datagram carries a packet_t, and that another object. Socket/Reply has the answer
-- to the sender of the last packet. Delivery, Reply, Total and Received have the proofs.
-- src/sockets/udpsocket.cpp, tun.cpp and src/apps/RSTunnelServer.cpp: Socket/Descriptor, the
-- opening and closing of sockets and of the tunnel device. The operating system is a record of the
-- calls that the program makes with what their manual pages say of descriptors, and of TUNSETIFF
-- that a plain name, of 1 to 15 bytes without %, becomes the device's name; Tests/System has one
-- with room for four descriptors.
-- src/apps/RSServerCommunication.cpp and RSRouter.cpp: Address, the numbers in the addresses of
-- clients and chains, as they are given out and as the tunnel reads them.
-- The same two: Server. State has the globals; Onion builds a client's chain from a route, layer
-- by layer; Bindings finds the chain that is bound to an address, or asks for it; Routing is what
-- a device does with a packet: it takes a layer off its chain and sends it on, or delivers it;
-- Requests is what it does with a DNS request, Receiver the loop over the packets with its
-- handlers, Clients what getClientInfoById does, Tunnel what the device does with a packet that it
-- reads from its tunnel, Start how main sets the state up, Opening which descriptors it opens,
-- Release what freeClientObject and free_dns_requests_t delete. Steps has the three threads as one
-- relation: a step is one round of one of the loops, in any order, on whatever arrives; the states
-- that are reached are those behind main. Peeling, Journey, Chains, Arrival, Lookup, Resolution,
-- Lifecycle, Devices and Entry have the proofs on what one device or several do with a packet or a
-- request, with Object/Reuse, on parsing into an object that is not fresh; Directory and Naming
-- relate the bound chains to a directory from names to addresses; Frame says what most functions
-- leave alone, Transition what a step may change of the chains and of the clients, Moves and Uses
-- that no step changes more, Invariant what holds of the addresses in every state, and Standing
-- what becomes of a client. Sockets and Ready follow the socket through all the functions, and
-- Indexed, with Response, the bound chains: whatever arrives, they stay indexed by the checksums
-- of their names. Handlers and Control follow a packet of the route server through its handler,
-- with Defines/Responses for the forms of what is unpacked, Connect the response to
-- onDeviceConnect; Delivering and Passing follow the packet of another device, with
-- Defines/DataPackets, and with the addresses of the state as bytes from Numbered; Round puts the
-- two together. Thread has the thread of the
-- device as steps, Ip4 the header of an IPv4 packet (src/utils/ip.h) in memory.
-- src/apps/RSDNSServer.cpp: Dns, the parser of a request (Message, Query), the response (Answer)
-- and the requests that wait (Pending).
--
-- A run ends with a value, by exit (exited), in undefined behaviour (fault), or out of fuel. The
-- fuel of the constructor and of parse is the depth of nesting; for the program's table 4 is
-- enough for every struct, which Defines/Safe checks. The buffer that parse reads is the list of
-- the bytes that are really there, apart from the code's own count len. The code keeps the count
-- that parse returns for a nested object in an int, which is negative from 2^31 on: parse faults
-- there. The theorems speak of objects and buffers below 2^31 bytes, so that the returned count
-- neither wraps nor reads as -1. Four rounds of ip_sum's last loop and as many rounds of the DNS
-- name loop as there are bytes are enough, which is proved. get_crc too takes an int length, so
-- that from 2^31 bytes on its loop does not run, and ip_sum is stated below that length. A DNS
-- request has more than twelve bytes where it is answered, as the parser's test has it. The
-- machine is little-endian, as the packed structs of the source assume. A sound object
-- (Object/Shape) is one of a struct of the table, its values of the forms that the type texts
-- name, with lengths below 2^31 and no element of an array that is encoded by no bytes.
--
-- What rand() gives, the datagrams that arrive and whether a write into the tunnel device succeeds
-- are arguments; what a socket sends and what the device writes are lists in the state.
--
-- Not modelled: addresses in memory, the printing of progress, the opening of the device on Apple
-- systems, the seed of rand(), the debug registry of objects, and threads that
-- interleave inside a round of a loop: the code takes no lock, so that the relation of Steps has
-- the interleavings of whole rounds only.
pub mod Base
pub mod Object
pub mod Defines
pub mod Checksum
pub mod Address
pub mod Dns
pub mod Socket
pub mod Server
mod Tests
