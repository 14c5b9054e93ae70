-- ===== src/Lib.antt =====
-- libcppconnman: a C++ library that talks to connman over D-Bus.
--
-- The program. DBus (src/dbus/gdbus.cpp) runs a GLib main loop on its own thread and counts the calls
-- whose reply is awaited. A DBusProxy (include/amarula/dbus/gproxy.hpp) stands for one remote object:
-- it holds its properties, reads them from dictionaries, sends requests and runs the user's callback
-- when a reply comes. Service, Technology, Clock and Manager (src/dbus/gconnman_*.cpp) are proxies
-- with their own properties and requests. Manager keeps the lists of services and technologies up to
-- date with connman's signals, and its Agent (src/dbus/gconnman_agent.cpp) answers connman's questions.
-- Connman (src/dbus/gconnman.cpp) makes and destroys them. The example connmanctl
-- (examples/connmanctl.cpp) is a shell on top: it reads lines, calls the objects of the manager's lists
-- and prints what their callbacks report.
--
-- The files.
--   Prelude: Boolean tests, lists over the native numbers, and exceptions as values.
--   GVariant: GLib's values as an interface, with the documented laws that some theorems assume;
--     GVariant/Vectors: as_to_vector and vector_to_as of src/dbus/gdbus_private.hpp.
--   Names: the constants of src/dbus/gconnman_private.hpp.
--   EnumMap: EnumStringMap (toString, fromString); EnumMap/Laws for any table, EnumMap/Tables for the
--     program's own.
--   Props: update_property, updateProperties and GVariantParser::parse over any class of properties;
--     Props/Fields and Props/Invariants: what a whole dictionary makes of a field, and what it keeps.
--   Print: what the operator<< of the properties share; Service/Print, Technology/Print and Clock/Print:
--     operator<<; Print/Total: over all of them.
--   Bus: onAnyAsyncStart, onAnyAsyncDone, stop and start; Bus/Shutdown: them as steps of the thread of
--     the loop and of the others, in any order; Bus/Race: the increment as a load and a store;
--     Bus/Invoke: the wait of the constructors and of connectSignal for the loop; Bus/Drain: the last
--     iterations of the context.
--   Proxy: prepareCallback, executeCallBack, finishAsyncCall, get_property_cb,
--     on_properties_changed_cb; Proxy/Tracking, Completion, Replies and Failures: the table of
--     callbacks against the calls in flight; Proxy/Schedule: both in any order; Proxy/Lifetime: the
--     shared pointers to a proxy and the references of its GDBusProxy, Proxy/Lifetime/Dangling: their
--     end while a signal is handled; Proxy/Requests: callMethod, setProperty and getProperties.
--   Service, Technology, Clock, Manager: Enums, Props (the fields and `update`), Reading (what a
--     dictionary makes of them) and Calls (the requests); Service/Blocks: IPv4, IPv6, Ethernet,
--     Provider and Proxy; Service/BlockReading, BlocksReading: what a
--     dictionary makes of these; Service/Fields: the branches of `update`; Service/Roaming: a
--     property that they never write.
--   Manager/Lists, Proxies, Defs: process_services_changed, on_services_changed_cb,
--     on_technology_added_removed_cb and get_proxies_cb; Manager/Paths, Order, Changes, Made, Reads,
--     Signals: what they make of the lists; Manager/Kept, KeptReplies: what every handler
--     keeps; Manager/History: any sequence of them; Manager/View: the services as an ordered list of paths with properties, without
--     addresses; Manager/Refinement, Untouched, Histories: one change and any history over it;
--     Manager/Fields, Classify: parse_fields and classify_input; Manager/Input,
--     Answers: the two handlers of setup_agent; Manager/Calls: its requests.
--   Agent: dispatch_method_call; Agent/Answers: its replies; Agent/Threads: the threads that it starts,
--     and the context; Agent/Threads/Dispatch: what one call starts; Agent/Threads/Turns: many calls, in
--     any order.
--   Readings, Roundtrips: dictionaries and requests over several kinds of proxies.
--   Signatures: the D-Bus types that GLib gives to what is sent, and those that connman's interfaces
--     declare; Signatures/Requests and Answers: the requests, and the answers of the agent; Getters:
--     readers that do not depend on what a getter answers for a value of another type, Plain, Blocks
--     and Services: the documented types against the getters of each class, Reads: all of them.
--   Log: include/amarula/log.hpp, where a thread formats, takes the mutex and writes; Log/Whole: many
--     threads.
--   Lifecycle: the constructors and destructors of DBus, DBusProxy, Agent and Connman as calls of GLib;
--     Lifecycle/Held: what they take and give back.
--   Connmanctl: the example. Words: the trimming of a line and the words that >> reads; Trim: what these
--     make of a line. Commands: command_map, tech_map and printContainer. Completion: completion and
--     command_generator; Candidates: the words they offer. Messages: the callbacks' texts, has_message
--     and event_hook; Screen: these in any order. Shell: the globals and the callbacks that main
--     registers. Actions: what a command does. Technologies, Tethering, Services, Loop: the commands and
--     the loop of main; Allowed, TechRequests, Requests: which requests they make. Session: lines and
--     callbacks in any order; Handover: a typed passphrase and the callback that waits; Justified: the requests of a session; Power: enable and disable, through
--     the library and back; Connect: connect and disconnect, before and after connman's report;
--     Passphrase: a typed line on its way through Manager and Agent.
--   Tests: a concrete GVariant and runs at concrete inputs.
--
-- How state is modelled. An object is a record and an operation a function from the old record to the
-- new one; what else it does (quitting the loop, running a callback, sending a reply) is part of the
-- result. A shared pointer to a proxy is the address of an object in a store that only grows. An
-- exception is a value, and what was written before it stays written; where it leaves a handler on the
-- thread of the loop, which has no handler for it, the program ends, so a sequence of messages stops there.
-- A proxy is modelled with the bus that it shares; the calls of the other proxies, which pending_calls_
-- counts too, are a number beside it (Proxy/Tracking, Schedule). A user callback is a number where
-- only its running matters, with the calls that it makes in return as a parameter, and a function that
-- may throw where its answer matters. Machine integers keep their wrap-around: pending_calls_ 2^32,
-- callback_counter_ 2^64, the 8-bit and 16-bit properties 2^8 and 2^16. Every loop of the library runs
-- over a list, so its definitions need no fuel, but for that of Bus/Drain, where fuel for one iteration
-- more than there is to dispatch is enough; the calls that readline makes of command_generator are
-- bounded by a number, and the length of the container is enough. A text that is read character by
-- character is a list of characters; a size of the source is one in bytes. A stream is the list of the
-- pieces that were written to it. While connmanctl handles one line the manager is taken to stand still.
--
-- Parameters. GLib is not part of the repository: GVariant is an interface, and whether a proxy can be
-- made (g_dbus_proxy_new_sync) is a function from the path to an optional message. The initial value of
-- type_ of a technology, which the program leaves uninitialized, is a parameter too.
--
-- How a stream writes an integer, what localtime_r makes of a time, and the order of connmanctl's
-- commands_container, which is that of an unordered map, are parameters as well.
--
-- Not modelled: readline and the terminal, the tests, which need a running connman, and what else runs
-- on a bus after its Connman was destroyed. The messages that the library logs are not part of the
-- results of its operations. In the lists of the manager an object that nobody holds stays in the store;
-- Proxy/Lifetime says when it ends. What the context dispatches in the destructor of DBus is GLib's, a
-- parameter of Bus/Drain.
pub mod Prelude
pub mod GVariant
pub mod Names
pub mod EnumMap
pub mod Props
pub mod Print
pub mod Bus
pub mod Proxy
pub mod Service
pub mod Technology
pub mod Clock
pub mod Manager
pub mod Agent
pub mod Readings
pub mod Roundtrips
pub mod Signatures
pub mod Log
pub mod Lifecycle
pub mod Connmanctl
pub mod Tests
