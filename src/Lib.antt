-- ===== src/Lib.antt =====
-- A model of libToxTun, which tunnels Ethernet frames between two friends over Tox.
--
-- The program. A `ToxTunCore` (src/ToxTunCore.cpp) holds one `Connection` (src/Connection.cpp) for
-- each friend, hands it the packets that tox received, and offers the operations of the library.
-- A connection negotiates a subnet with its friend, sets the address of its tun interface, and then
-- forwards frames. `Data` (src/Data.cpp) is a packet; one that tox cannot carry is cut into
-- fragments. `TunInterface` (src/Tun.cpp) drops the frames of tox itself and searches a free subnet.
--
-- The files.
--   Errors        how a call ends: ToxTunError, std::out_of_range, std::terminate, undefined
--                 behaviour, and lack of fuel
--   Data          src/Data.hpp, src/Data.cpp: header, accessors, constructors
--   Split         Data::getSplitted;  Assembly: Data::fromFragments;  Pieces: their specification;
--                 RoundTrip: the two together
--   Tun           src/Tun.cpp: isFromOwnTox and its two parts, getData, isAddrspaceUnused
--   TunUnix       src/TunUnix.cpp and ipv4FromPostfix of src/Tun.cpp: system calls and descriptors
--   TunWin        src/TunWin.cpp: overlapped reads and writes; TunWin/Adapter: the registry, the
--                 device and its address
--   Sockets       the addresses that both platforms list
--   Method        the monad of methods that change an object and may throw
--   Assoc         std::map
--   World         the fields of ToxTunCore and Connection, the calls of code outside (Env), and in
--                 World/Exec what methods of the core and its connections do with it
--   Connection    sendToTox, the constructor and the destructor, reset and deletion
--   Handlers      the handlers of the negotiation, sendIp, setIp, sendToTun, acceptConnection
--   Incoming      handleData, handleFragment, iterate
--   Core          ToxTunCore: the operations of the library and the entry of received packets
--   CApi          src/ToxTunC.cpp: handles, kept errors, enumerations; CApi/LastError on the errors
--   Rounds        the loop of iterate;  Rounds/Clock: its rules
--   Lifetime      src/ToxTun.cpp, constructor and destructor of ToxTunCore, toxtun_new, toxtun_kill;
--                 Lifetime/Live: which core a packet reaches, Lifetime/Kill: what stays of a core
--   Closing, Unexpected   how a connection ends, and packets that do not fit its state
--   Lifecycle     how a connection begins at a request, and how the program ends one;
--                 Accepting: acceptConnection
--   Proposal      sendIp: Proposal/Search is its loop;  Negotiation: handleIpProposal
--   Sending       sendToTox;  Collecting, Reassembly: the fragments of a packet as they arrive;
--                 Malformed: sets of fragments that fromFragments refuses
--   Invariant     what holds of the connections between two calls: rules for the monad, and in
--                 Invariant/Closing, Searching, Negotiating, Waiting, Packets, Calls and Iterating
--                 the methods; Invariant/Reached: the worlds after any calls of the library
--   Locality      what a property of the core must allow so that the calls for one friend keep it; its
--                 children follow the methods;  Isolation: the connections to the other friends
--   Consent       a friend whom the program did not accept: Consent/Packets and Consent/Calls
--                 follow the methods, Consent/Asking is about runs
--   Handshake     two cores that hand each other their packets. Handshake/Receiving is one call,
--                 Handshake/Caller and Handshake/Callee the calls of each, Handshake/Subnets and
--                 Handshake/Proposing the subnets that the caller proposes, Handshake/GivingUp his
--                 end; on both peers are Handshake/Agreement, Handshake/Failure, Handshake/Parting
--   Tunnel        a frame from one interface to the other: Tunnel/Reading the round of iterate that
--                 reads it, Tunnel/Posting its packets as they are sent, Tunnel/Entering and
--                 Tunnel/Arriving as they arrive
--   Errors/Ending, Data/Ending, Assembly/Size     results without lack of fuel, and their sizes
--   Scenario, Tests       a concrete environment, and runs in it
--
-- How state corresponds. `World` is the core's fields with the actions done so far. A method of a
-- connection is given the friend's number and finds its object in the map each time it uses it; an
-- access after the object was erased is `undefined`, as in C++. An exception that leaves a
-- `noexcept` function is `terminated`. A `Data` is a value, since no shared vector is written.
--
-- What is a parameter. tox (its packet size, whether a send succeeds, its port) and the tun backend
-- of the platform (TunUnix, TunWin) are the fields of `Env`. An answer may depend on the number of
-- calls made before it. A backend's method returns or throws a ToxTunError, as Tun.hpp documents;
-- the bytes that getDataBackend read are put into a `Data` by the model's own `from_tun_data`, which
-- throws out_of_range for none, so an empty read ends the process.
-- The callback of the program is a record of the call: one that calls the library is not modelled.
--
-- Fuel. `getSplitted` takes one round more than the data has bytes, `sendIp` 257 rounds, one for each
-- subnet from 0 to 256, and `handleData` one more than the bytes that wait in fragments and arrive.
-- `iterate` takes its fuel as an argument, since its rounds depend on the clock of the environment:
-- a fuel above the clock at which the time is over is enough.
--
-- Two peers. In Handshake the packets that tox took from one core are handed to the other in order,
-- and the answers to them back, until none is left: tox loses none and keeps their order. A run is
-- `some` only if each call returned.
--
-- The backends. A system call is a field of `UnixApi`, `WinApi` or `AdapterApi`, its answer by the
-- clock, and the calls that change something are kept as actions. The read request `i` of Windows
-- reads the frame `i`; `htonl` is a field too. To the connection a backend is what `Env` answers.
--
-- Runs. A sequence of calls, in Reassembly, Tunnel, Consent and Handshake, stops at the first call
-- that ends in a fault from which the process does not go on.
--
-- Not modelled: logging (src/Logger.hpp), the text of errno in messages, and two threads or a
-- callback that calls the library. In Lifetime the order in which the connections of a core are
-- destroyed is a parameter, since std::map promises none, and tox hands a packet to the callback
-- that it was given last.
mod Base
pub mod Errors
pub mod Data
pub mod Pieces
pub mod Split
pub mod Assembly
pub mod RoundTrip
pub mod Tun
pub mod Sockets
pub mod TunWin
pub mod TunUnix
pub mod Assoc
pub mod Method
pub mod World
pub mod Connection
pub mod Handlers
pub mod Incoming
pub mod Core
pub mod CApi
pub mod Closing
pub mod Collecting
pub mod Malformed
pub mod Reassembly
pub mod Proposal
pub mod Sending
pub mod Negotiation
pub mod Accepting
pub mod Lifecycle
pub mod Unexpected
pub mod Invariant
pub mod Lifetime
pub mod Rounds
pub mod Locality
pub mod Isolation
pub mod Consent
pub mod Handshake
pub mod Tunnel
pub mod Scenario
mod Tests
