-- ===== src/Lib.antt =====
-- libultrabus wraps the C API of libdbus in C++ classes. This development models its connection,
-- what connects, waits, times and watches, the classes that stand on it, and the values that
-- messages carry.
--
-- A connection (lib/ultrabus/connection.cpp) has two threads. The I/O thread waits in epoll for
-- the descriptors that libdbus asks it to watch and for one timerfd that serves every timeout of
-- libdbus; the dispatch thread lets libdbus handle the messages, and so runs the callbacks that
-- wait for replies. libdbus calls back into the connection to add, remove and toggle watches and
-- timeouts, and when a pending call is answered.
--
-- The files:
--
-- - Timers and its children: `timers`, inc_abs_time, timespec_less_t, on_add_timeout,
--   on_remove_timeout, on_toggled_timeout, on_timerfd_event. Timers.Time has the time arithmetic,
--   Timers.Entries the list operations, Timers.Order what they keep, Timers.Expiry the operations
--   together. A queue is the list of entries and the last value that timerfd_settime was given.
-- - Watches and its children: `fd_map`, on_add_watch, on_remove_watch, on_toggled_watch,
--   epoll_events_to_dbus_events, handle_io_watch_event. Watches.Events has the event masks,
--   Watches.Masks their unions, Watches.Interest the operations together, Watches.Dispatch the
--   toggling and the delivery. What epoll_ctl was asked for is kept beside the map, as `interest`.
-- - Connection and its children: the members of class connection, connect, is_connected,
--   disconnect, disconnect_impl, send with a callback and on_pending_call. A C++ function of
--   several early returns is split where it asks libdbus or the system something. Connection.Log
--   has the log and its counts, Connection.Lifecycle what an idle and a running connection are,
--   Connection.Opening what connect does, Connection.Balance and Connection.Pending that the log
--   balances, Connection.Session any sequence of calls, Connection.Waiting the two threads of
--   send_and_wait.
-- - Matches and its children: `match_rules`, add_match and remove_match of
--   lib/ultrabus/message_filter.cpp, synchronous and asynchronous. Matches.Rules is
--   std::set<std::string>, Matches.Synced what the bus holds of the rules, Matches.Outcome what a
--   call returns, Matches.Drift how filter and bus come apart, Matches.Deadlock the mutex of the
--   rules between a caller and the dispatch thread. A filter keeps a log of the requests it has
--   sent and, as their replies are handled, of those that the bus has carried out.
-- - Methods and its children: the wrappers of the methods of org.freedesktop.DBus in
--   lib/ultrabus/connection.cpp, request_name to become_monitor, each with its synchronous and its
--   asynchronous overload. Methods.Frames is what they share, Methods.Replies how replies become
--   return values, Methods.Every one type for all of them, Methods.Agreement the overloads against
--   each other, Methods.Failure when they call the bus and when they succeed.
-- - Names and its children: set_name_owner_changed_cb, set_name_lost_cb, set_name_acquired_cb,
--   on_signal and on_signal_impl of lib/ultrabus/connection.cpp. Names.Rules is about the match
--   rules of the callbacks, Names.Dispatch about which signal calls which callback, Names.Session
--   about any sequence of both, Names.Drift about where callback and rule come apart.
-- - Proxy and its children: set_signal_callback, set_properties_changed_callback and on_signal of
--   lib/ultrabus/object_proxy.cpp. The map of signal callbacks is that of Common.Pairs,
--   Proxy.Setting is about what a setter leaves behind, Proxy.Routing about which callback a
--   signal is given to, Proxy.Clearing is clear_signal_callbacks; Proxy.Ifaces has
--   set_interfaces_added_callback and set_interfaces_removed_callback, Proxy.Rooted is about their
--   match rules.
-- - Interfaces: the method calls of the standard interfaces,
--   lib/ultrabus/org_freedesktop_DBus_Peer.cpp and org_freedesktop_DBus_Introspectable.cpp;
--   Interfaces.Properties those of org_freedesktop_DBus_Properties.cpp, Interfaces.Managed that of
--   org_freedesktop_DBus_ObjectManager.cpp, Interfaces.Proxied the constructor and the property
--   calls of lib/ultrabus/object_proxy.cpp. Interfaces.Every has all of them in one type,
--   Interfaces.Shape what they have in common, Interfaces.Overloads is about the two overloads of
--   each, Interfaces.Checks about what is sent and when a call succeeds. Timeouts are only handed
--   on, and are left out.
-- - Subscriptions: the signal callbacks of the standard interfaces,
--   lib/ultrabus/org_freedesktop_DBus_Properties.cpp and org_freedesktop_DBus_ObjectManager.cpp.
--   The three setters differ in the map and in the rule, and are one function with these as
--   arguments. Subscriptions.Changes is about what a setter leaves behind, Subscriptions.Rules
--   about the texts of the rules, Subscriptions.Covered about any sequence of calls and signals,
--   Subscriptions.Delivered about which callback a signal is given to.
-- - Objects and its children: register_object_path, unregister_object_path and the destructor of
--   lib/ultrabus/object_handler.cpp. Objects.Paths is the map of paths, Objects.Registered is
--   about the paths that libdbus has, Objects.Handling about the callback of a path.
-- - Json and its children: to_json of lib/ultrabus/dbus_string.hpp. Json.Reader is how a reader of
--   JSON takes a string, Json.Faithful is about the two together. Json.Document is a reader of
--   whole texts of JSON, Json.Decimal the decimal text of an integer.
-- - Numbers and its children: the integer types of lib/ultrabus/dbus_basic.hpp and
--   lib/ultrabus/dbus_unix_fd.hpp, by their type codes. Numbers.Conversion is about assignments,
--   Numbers.Comparison about the comparisons.
-- - Values and its children: the value classes of lib/ultrabus/dbus_type.hpp and its subclasses,
--   as one type of values with the member `sig` of the containers. Values.Typed says when a value
--   is what its signature says; Values.Arrays has dbus_array, Values.Structs dbus_struct,
--   Values.Dicts dbus_dict for any class of keys, Values.Assign the assignments of one value to
--   another, Values.Compare the comparisons, and Values.Create has create_dbus_type of
--   lib/ultrabus/utils.cpp with the functions that it calls. An object whose members change is a
--   record, and the value that its `clone` makes is its `freeze`. Values.Texts has to_string and
--   to_json of every class, with what std::to_string makes of a double as a parameter;
--   Values.Texts.Described the tree of JSON that a text stands for, Values.Texts.Read the proof
--   that a reader finds this tree.
-- - Retvalue: the class of lib/ultrabus/retvalue.hpp.
-- - Common: shared names and tests; Common.Maps is std::map as a list with ascending keys.
-- - Tests: the theorems at concrete inputs.
-- - Messages: the arguments of a message, lib/ultrabus/message.cpp and message.hpp. A body is what
--   libdbus holds between append_dbus_type_arg and create_value_from_iter. Messages.Reading has
--   the loops over the arguments of a container, one of which may not end, Messages.Sendable the
--   values that come back as they were, and Messages.Faithful the round trip. What libdbus
--   duplicates for a file descriptor is a parameter, and so are the comparisons of doubles.
--   Messages.Document is message::to_json, Messages.Document.Read what a reader makes of its text,
--   Messages.Document.Broken the text of an error message.
--
-- What is not under lib/ is an argument: each answer of epoll, timerfd and libdbus is passed to
-- the operation that asks for it, so that a theorem holds for all answers. Addresses, descriptors,
-- callbacks and messages are numbers. The requests that matter are state: the value of
-- timerfd_settime, the interest of epoll_ctl, and the log of what a connection acquires, gives
-- back and registers.
--
-- Numbers are natural numbers without a width, but for the integer types of Numbers, whose
-- conversions are written out; a double is only known by a number, and its conversions are a
-- parameter. The times of the timers come from a clock that does not go near 2 ^ 63 seconds, and
-- an interval of libdbus is a positive int. The only loop that is not over a list is the carry of
-- inc_abs_time; it has as fuel the milliseconds that were added, which is at least the seconds
-- that they hold, and the theorem on inc_abs_time shows that the result is a normal time, so that
-- the fuel is enough.
--
-- Connection.Waiting interleaves the statements of the two threads one at a time, although
-- `got_reply` is a plain bool without a lock. Apart from it and Matches.Deadlock, operations run
-- one after the other, as under the mutexes of the code. disconnect_impl releases conn_state_mutex
-- on its way; what another thread does in that window is not modelled. Nor are the bodies of the
-- thread loops, which only call epoll and libdbus, the error replies that send_and_wait makes
-- itself, the destructor and the dispatching of a message filter, the header fields of a message
-- and its arguments of C++ types, and the method calls of the object proxy and its reading of
-- properties into C++ values.
pub mod Common
pub mod Timers
pub mod Watches
pub mod Connection
pub mod Retvalue
pub mod Matches
pub mod Methods
pub mod Names
pub mod Proxy
pub mod Objects
pub mod Subscriptions
pub mod Interfaces
pub mod Json
pub mod Numbers
pub mod Values
pub mod Messages
mod Tests
