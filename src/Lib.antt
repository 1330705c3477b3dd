-- ===== src/Lib.antt =====
-- A verification library for xdp-nat-forward, an XDP NAT forwarder with a rules manager.
--
-- The program's parts. An eBPF program (forward-ebpf/src/main.rs, with the map types of
-- forward-common/src/lib.rs) rewrites packets between clients and the targets of NAT rules; it
-- keeps sessions in two BPF maps and reads the rules from a third. A daemon (forward/src) fills the
-- rules, removes idle sessions and serves a command socket and an HTTP API. A manager
-- (forward-manager/src) relays commands to daemons over WebSockets, and a web console
-- (forward-manager/frontend/src/App.tsx) shows the connected nodes and sends it requests.
--
-- Base passes on the library names that all modules share, Boolean tests on numbers and lists.
--
-- Datapath models the eBPF program.
--   Datapath/Checksum: csum_fold, update_csum_16, update_csum_32. The fold has four rounds, as the
--     loop in the source; a sum of three u16 needs two.
--   Datapath/Packet: the packet as a function from offsets to bytes with its size, ptr_at_mut's
--     bounds check, loads and stores of fields, byte order. The target is little-endian.
--   Datapath/Types and Datapath/Maps: the map types, and the BPF hash maps as an interface with the
--     documented laws of get, insert, remove and writes through get_ptr_mut; insert may fail.
--     Datapath/Maps/Total meets the interface.
--   Datapath/Session: allocate_nat_port and the session tables. Datapath/Rewrite: the stores to a
--     packet. Datapath/Program: try_forward and forward, for one packet with the clock's reading.
--
-- Console models the web console, forward-manager/frontend/src/App.tsx. A string is the list of its
-- UTF-16 code units; ports are integers below 10 ^ 21, which the language prints without an exponent.
--   Console/Text: ===, template literals of numbers, parseInt. The fuel of a printed number is above
--     the number and each round divides it by ten. Console/Sets: includes, filter, Set.add.
--   Console/State: the fields of useState, the values of useMemo, the effects, the check boxes.
--   Console/Audit: diffAuditList, with rulesMap as the list of its entries and nodePresence as the
--     list of its own keys beside the inherited properties of an object.
--   Console/Handlers: handleQuerySessions, fetchNodes, handleAddRule, handleDeleteRule and the sync
--     button. An awaited reply splits a handler into what it does when it is called and what the
--     reply makes of the state. Console/Steps: the events as steps, and the reachable states.
--   Console/View: what the panels show, without styles. The program's use of React is modelled so:
--     the effects of a new array of nodes run before the next event.
--   Console/Elements and Console/Page: the whole returned tree as texts and controls with their
--     handlers, the sidebar, the toolbar and the three tabs each in a module, and what the user can
--     do with a control. Console/Page/Offers and Console/Page/Inputs relate these to the events.
--
-- Manager models the manager server, forward-manager/src/handlers.rs with types.rs: the table of
-- connected nodes, the loops of add_rule and delete_rule over it, and the pending queries. A socket
-- is a number, the outcome of a write is an argument where the code looks at it. Manager/Sync
-- joins it with the console: what the console's request decodes to, and who receives the rule;
-- Manager/Removal is about the button Remove. Manager/Serving is the server at work: connections and
-- requests that are being handled, as events on the two tables that they share. The end of a
-- connection and the removal of its node are two events, as are a timer and what it removes.
--
-- Daemon models the daemon, forward/src. A text is the list of its characters, a map and the walk over
-- it are interfaces (Datapath/Maps, Datapath/Maps/Iteration), and the product of two u64 is that of a
-- release build, which wraps.
--   Daemon/Words: what the code calls of the standard library on texts. Daemon/Words/Numbers, Pieces
--     and Addresses are about texts that were printed or joined.
--   Daemon/Host: utils.rs, with the contents of the kernel's files as an argument.
--   Daemon/Rules: rule.rs; RulesFile is the file with its JSON. Daemon/Rules/Table, Listing,
--     Restore and Saved are about the rules as a function, their list, and the start after a save.
--   Daemon/Cleanup: spawn_session_cleanup_task of main.rs, a round of its loop at a clock's reading.
--   Daemon/Service: the state that the interfaces share, and saving after a change.
--   Daemon/Http: http.rs, with HMAC and hexadecimal decoding as parameters (Crypto).
--   Daemon/Command: cmd.rs, both ends of the socket; Daemon/Command/Replies has the answers.
--   Daemon/Sessions: the query of the sessions between two addresses.
--   Daemon/Client: manager_client.rs; Daemon/Client/Sync, Repair and Removal join it with the
--     manager and the console, Daemon/Client/Queries is about its answers to queries.
-- An error carries no cause: its text is a parameter.
--
-- System puts the parts on the daemon's host together: packets, rule changes and the cleanup task of
-- forward/src/main.rs on the same maps. A packet and a rule change are one step each, the cleanup takes
-- one step for each session that it collects and each key that it removes, and the steps interleave
-- in any order. Datapath/Session/Balanced and System/Removal are about single steps, System/Reach,
-- System/Fits and System/Ending about the states that are reached, System/Lasting and System/Replies
-- about a session between a packet and its reply. Values fit the widths of their fields as long as the
-- clock is below 2 ^ 64 nanoseconds, which is an assumption of Datapath/Program/Widths and System/Fits.
--
-- Not modelled: log messages, loading and attaching the program, sockets and their retries, the JSON
-- of messages, several CPUs that run the program on one map at the same time, and the build
-- scripts.
mod Base
pub mod Datapath
pub mod Console
pub mod Manager
pub mod Daemon
pub mod System
