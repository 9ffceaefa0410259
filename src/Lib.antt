-- ===== src/Lib.antt =====
-- Verification of the memory-pressure-aware cache governor: a daemon that polls the pressure of
-- the kernel (include/governor, src/governor), a client library with an LRU cache that the daemon
-- shrinks and grows over a socket (include/client, src/client), and two programs to measure them.
--
-- Lru: the class LRUCache of include/client/governed_cache.h. Lru holds the fields of the class
-- and one function for each method, over an explicit heap of nodes, where a wrong pointer is a
-- fault. Lru.Segment describes doubly linked segments, Lru.Invariant the invariant of the class,
-- Lru.Front, Lru.Unlink, Lru.Access, Lru.Evict, Lru.Insert and Lru.Update the pointer operations;
-- Lru.Spec is the abstract cache, a list of entries, Lru.Refinement, Lru.Sessions and Lru.Lookups
-- relate the two, Lru.Overflow is about the number of entries. Loops run on fuel size_ + 1, one
-- round for each node.
--
-- Policy: the class PolicyEngine of src/governor/policy_engine.cpp. Policy holds evaluate and its
-- two checks; Policy.Step reduces a poll to one decision, Policy.Transition and Policy.Invariant
-- say what a poll may change, Policy.Polls, Policy.Debounce, Policy.Conflict, Policy.Counting,
-- Policy.History and Policy.Reach are about sequences of polls. Psi holds the record of a poll,
-- Psi.Parse the parser of the pressure file of src/governor/psi_poller.cpp, with std::stod as a
-- parameter, Psi.Poller the class PsiPoller and its polling loop over a list of rounds, and
-- Psi.Rendered reads the text of the file back.
--
-- Base holds shared names and lemmas. Floating point numbers are a parameter, the record Doubles
-- of Base.Double: its operations are those of the language, and no law is assumed of them where a
-- theorem does not name it. Tests holds the theorems at concrete inputs, with numbers in
-- hundredths in the place of floating point.
--
-- Text: strings as lists of bytes, with the searches and number conversions of the language that
-- the sources call. Protocol: include/governor/protocol.h, with the key search of deserialize as
-- the source does it; Protocol.Extract and Protocol.Roundtrip are about reading back,
-- Protocol.Framing about the length prefix.
--
-- Registry: the class ClientRegistry of src/governor/client_registry.cpp. Registry holds the
-- table and the handlers, Registry.Server start, stop and the event loop, Registry.Send the
-- broadcasts. The results of accept, read, write and epoll_wait are lists, an argument of the
-- handlers; a handler still in its loop at the end of its list is none. The fuel of the reading
-- loop is the number of results, of which each round uses one. The record of the registry also
-- says which descriptors were opened and closed. Registry.Handlers turns what the handlers keep
-- into what the event loop keeps; Registry.Reading, Registry.Table, Registry.Invariant,
-- Registry.Events, Registry.Closing, Registry.Ending, Registry.Broadcast and Registry.Restart
-- hold the proofs.
--
-- Client: the class GovernorClient of src/client/governor_client.cpp; Client.Listener is its
-- listener loop, one round at a time, Client.Commands, Client.Backoff and Client.Leak are about
-- the rounds, Client.Sending about the loop that writes. Governed: the class GovernedCache of
-- src/client/governed_cache.cpp, whose state is a Client and an LRU cache, with its callbacks in
-- the form that the client calls; Governed.Commands and Governed.Collapse are about one SHRINK or
-- GROW, Governed.Tracking about any number of them through the listener, Governed.Destroy about
-- the destructor. Daemon: the class GovernorDaemon of src/governor/governor_daemon.cpp, the
-- composition of Policy and Registry; Daemon.Orders says which command a poll sends,
-- Daemon.Output is the callback that its poller calls, and Daemon.Files is about the polling loop
-- with that callback. Daemon.Life holds start and stop of the daemon and main of
-- src/governor/main.cpp behind the command line, with the turns of the poller and of the event
-- loop as a list of moves, also during the joins; Daemon.Turns says what the moves keep,
-- Daemon.Leaving how a thread leaves its loop, Daemon.Stopping is about start and stop,
-- Daemon.Exit about the end of main, and Daemon.Interleaving about polls and events in any order.
-- System follows a command from the broadcast to the cache, System.Reports the reports of a
-- client to the table, and System.Cycle puts the two together.
--
-- Programs: the command lines of src/governor/main.cpp, src/pressure_gen/main.cpp and
-- src/cache_app/main.cpp, in Programs.Governor, Programs.Generator and Programs.CacheApp, each
-- with a module Options that says what the options mean; Programs.Arguments is about the three.
-- Programs.CacheApp.Workload is the workload of src/cache_app/main.cpp with the listener thread
-- beside it, over a list of their turns, which hold what the clock, the random generators, new
-- and the socket return; Programs.CacheApp.Session says what operations and messages make of a
-- list of entries, Programs.CacheApp.Operation and Programs.CacheApp.Threads relate the two loops
-- to it, and Programs.CacheApp.Main the whole of main. Pressure: src/pressure_gen/main.cpp, with
-- the allocation loops in Pressure, the targets and the main loop in Pressure.Generator, and
-- proofs in Pressure.Target and Pressure.Freed.
--
-- Not modelled: the evaluation scripts; the locks, so that a handler is one step, a poll sees one
-- table, and what two threads do is a sequence of the turns of their loops (moves in Daemon.Life,
-- turns in Programs.CacheApp.Workload) or of single polls and events (acts in
-- Daemon.Interleaving); an overflow of the counters of PolicyEngine, which are of type int there
-- and numbers here; the wait of stop_listening for the listener thread, which is taken to end;
-- the limits of the memory, so that a length prefix of a few gigabytes is allocated; the creation
-- of sockets beyond the results of the calls; banners, the time of day in the output, and the
-- sleeps of the loops except those of the listener and the throttle; std::discrete_distribution,
-- whose draws are arguments, and durations that overflow the clock.
pub mod Base
pub mod Text
pub mod Psi
pub mod Protocol
pub mod Lru
pub mod Policy
pub mod Registry
pub mod Client
pub mod Governed
pub mod Daemon
pub mod Pressure
pub mod Programs
pub mod System
pub mod Tests
