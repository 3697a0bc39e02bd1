-- ===== src/Connection.antt =====
-- The life of a connection and its pending calls, lib/ultrabus/connection.cpp. The answers of
-- libdbus and of the system are arguments; the calls of them that acquire, release or register
-- something are logged.
pub mod Waiting
pub mod Log
pub mod Balance
pub mod Pending
pub mod Session
pub mod Lifecycle
pub mod Opening
use Prim.Native.String.{String}
use libultrabus.Common.{
  ℕ, Bool, true, false, not, ◌&&◌, ◌||◌, Option, none, some, List, [], ◌∷◌, ◌++◌, ◌==◌,
  if◌then◌else◌,
}
use libultrabus.Common.Maps.{Map, find, emplace, erase}
use libultrabus.Timers.{Timers, no_timers}
use libultrabus.Watches.{Watches, no_watches}
use Log.{
  Resource, file, bus, call, Event, acquire, release, add_filter, remove_filter, flush, close_bus,
  cancel, await, reply,
}

pub data ConnState : Type 0 where
  disconnected connecting connected disconnecting : ConnState

pub data BusType : Type 0 where
  session system starter : BusType

abbrev pub same_state : ConnState → ConnState → Bool
same_state disconnected disconnected = true
same_state connecting connecting = true
same_state connected connected = true
same_state disconnecting disconnecting = true
same_state _ _ = false

abbrev pub same_bus : BusType → BusType → Bool
same_bus session session = true
same_bus system system = true
same_bus starter starter = true
same_bus _ _ = false

-- Callbacks are named by numbers; an empty std::function is none. A thread is joinable or not. A
-- descriptor that is invalid_file_desc is none. `conn_addr` is never set, so it is left out.
pub record Connection : Type 0 where
  pub conn_state : ConnState
  pub ctx : Option ℕ
  pub conn_type : BusType
  pub private_connection : Bool
  pub unique_bus_name : String
  pub io_thread : Bool
  pub dispatch_thread : Bool
  pub stop_io_thread : Bool
  pub stop_dispatch_thread : Bool
  pub pollfd : Option ℕ
  pub timerfd : Option ℕ
  pub fd_map : Watches
  pub timers : Timers
  pub pending_messages : Map (Option ℕ)
  pub name_owner_changed_cb : Option ℕ
  pub name_lost_cb : Option ℕ
  pub name_acquired_cb : Option ℕ
  pub log : List Event

-- The constructor.
abbrev pub new_connection : Connection
new_connection = record {
  conn_state = disconnected;
  ctx = none;
  conn_type = session;
  private_connection = false;
  unique_bus_name = "";
  io_thread = false;
  dispatch_thread = false;
  stop_io_thread = true;
  stop_dispatch_thread = true;
  pollfd = none;
  timerfd = none;
  fd_map = no_watches;
  timers = no_timers;
  pending_messages = [];
  name_owner_changed_cb = none;
  name_lost_cb = none;
  name_acquired_cb = none;
  log = [];
}

abbrev pub note : Event → Connection → Connection
note e s = record s { log = e ∷ s.log }

abbrev pub same_bool : Bool → Bool → Bool
same_bool a b = (a && b) || (not a && not b)

abbrev pub awaits : Option ℕ → List Event → List Event
awaits none log = log
awaits (some cb) log = await cb ∷ log

-- disconnect_impl, its parts in order.

unfoldable pub drop_filter : Connection → Connection
drop_filter s = record s {
  conn_state = disconnecting;
  log = if same_state s.conn_state connected then remove_filter ∷ s.log else s.log;
}

abbrev pub cancels : Map (Option ℕ) → List Event → List Event
cancels [] log = log
cancels ((p, cb) ∷ m) log = cancels m (cancel p ∷ log)

abbrev pub unrefs : Map (Option ℕ) → List Event → List Event
unrefs [] log = log
unrefs ((p, cb) ∷ m) log = unrefs m (release (call p) ∷ log)

-- `alive` is what dbus_connection_get_is_connected answers.
unfoldable pub close_connection : Bool → Connection → Connection
close_connection alive s = elim s.ctx [
  | none ↦ s
  | some b ↦
      if alive
      then record s {
        log =
            if s.private_connection
            then close_bus ∷ flush ∷ cancels s.pending_messages s.log
            else flush ∷ cancels s.pending_messages s.log;
      }
      else s
]

unfoldable pub drop_pending : Connection → Connection
drop_pending s = record s { pending_messages = []; log = unrefs s.pending_messages s.log }

unfoldable pub join_threads : Connection → Connection
join_threads s = record s {
  stop_io_thread = true;
  io_thread = false;
  stop_dispatch_thread = true;
  dispatch_thread = false;
}

unfoldable pub unref_bus : Connection → Connection
unref_bus s = elim s.ctx [
  | none ↦ s
  | some b ↦ record s { ctx = none; log = release (bus b) ∷ s.log }
]

abbrev pub close_file : Option ℕ → List Event → List Event
close_file none log = log
close_file (some fd) log = release (file fd) ∷ log

unfoldable pub close_files : Connection → Connection
close_files s = record s {
  pollfd = none;
  timerfd = none;
  log = close_file s.timerfd (close_file s.pollfd s.log);
}

unfoldable pub reset_fields : Connection → Connection
reset_fields s = record s {
  timers = no_timers;
  fd_map = no_watches;
  unique_bus_name = "";
  name_owner_changed_cb = none;
  name_lost_cb = none;
  name_acquired_cb = none;
  conn_type = session;
  private_connection = false;
  conn_state = disconnected;
}

unfoldable pub disconnect_impl : Bool → Connection → Connection
disconnect_impl alive s =
    reset_fields (
      close_files
        (unref_bus (join_threads (drop_pending (close_connection alive (drop_filter s))))))

unfoldable pub disconnect : Bool → Connection → Connection
disconnect alive s = if same_state s.conn_state connected then disconnect_impl alive s else s

unfoldable pub is_connected : Bool → Connection → Connection × Bool
is_connected alive s =
    let s' =
      if same_state s.conn_state connected && not alive then disconnect_impl alive s else s in
    (s', same_state s'.conn_state connected)

-- What the system and libdbus answer to the calls of `connect`: epoll_create1, timerfd_create,
-- epoll_ctl, dbus_bus_get or dbus_bus_get_private, dbus_connection_add_filter, and
-- dbus_connection_get_is_connected if the attempt is given up.
pub record Answers : Type 0 where
  pub epoll : Option ℕ
  pub timer : Option ℕ
  pub epoll_ctl_ok : Bool
  pub got_bus : Option ℕ
  pub filter_ok : Bool
  pub alive : Bool

-- The result with `errno == EBUSY` where the code sets it.
pub data Connected : Type 0 where
  success failure busy : Connected

abbrev pub give_up : Answers → Connection → Connection × Connected
give_up a s = (disconnect_impl a.alive s, failure)

-- start_io_handler, and the end of `connect`.
abbrev pub start_io_handler : Connection → Connection
start_io_handler s = record s {
  stop_io_thread = false;
  io_thread = true;
  stop_dispatch_thread = false;
  dispatch_thread = true;
}

abbrev pub install_done : Connection → Connection
install_done s = record (start_io_handler (note add_filter s)) { conn_state = connected }

unfoldable pub install : Answers → Connection → Connection × Connected
install a s = if a.filter_ok then (install_done s, success) else give_up a s

-- `found` is the answer that the step asks for.
unfoldable pub open_bus : Answers → Option ℕ → Connection → Connection × Connected
unfolding install
open_bus a none s = give_up a (record s { ctx = none })
open_bus a (some b) s = install a (note (acquire (bus b)) (record s { ctx = some b }))

unfoldable pub watch_timer : BusType → Bool → Answers → Connection → Connection × Connected
unfolding open_bus
watch_timer type private a s =
    if a.epoll_ctl_ok
    then open_bus a a.got_bus (record s { conn_type = type; private_connection = private })
    else give_up a s

unfoldable pub open_timer :
    BusType → Bool → Answers → Option ℕ → Connection → Connection × Connected
unfolding watch_timer
open_timer type private a none s = give_up a (record s { timerfd = none })
open_timer type private a (some t) s =
    watch_timer type private a (note (acquire (file t)) (record s { timerfd = some t }))

unfoldable pub open_poll : BusType → Bool → Answers → Option ℕ → Connection → Connection × Connected
unfolding open_timer
open_poll type private a none s = (record s { pollfd = none; conn_state = disconnected }, failure)
open_poll type private a (some p) s =
    open_timer type private a a.timer (note (acquire (file p)) (record s { pollfd = some p }))

unfoldable pub connect_from :
    ConnState → BusType → Bool → Answers → Connection → Connection × Connected
unfolding open_poll
connect_from connecting type private a s = (s, busy)
connect_from disconnecting type private a s = (s, busy)
connect_from connected type private a s =
    if same_bus type s.conn_type && same_bool s.private_connection private
    then (s, success)
    else (s, busy)
connect_from disconnected type private a s =
    open_poll type private a a.epoll (record s { conn_state = connecting })

unfoldable pub connect : BusType → Bool → Answers → Connection → Connection × Connected
unfolding connect_from
connect type private a s = connect_from s.conn_state type private a s

-- The rest of `send` with a callback, once connected. `pending` is the pending call that
-- dbus_connection_send_with_reply gives, none if the call fails or gives none.
unfoldable pub register_reply : Option ℕ → Option ℕ → Connection → Connection × Bool
register_reply pending cb s = elim pending [
  | none ↦ (s, false)
  | some p ↦ (
    record s {
      pending_messages = emplace p cb s.pending_messages;
      log = awaits cb (acquire (call p) ∷ s.log);
    },
    true,
  )
]

unfoldable pub send : Bool → Option ℕ → Option ℕ → Connection → Connection × Bool
unfolding is_connected register_reply
send alive pending reply_cb s =
    let (s', ok) = is_connected alive s in
    if ok then register_reply pending reply_cb s' else (s', false)

-- `message` is the reply that dbus_pending_call_steal_reply gives.
unfoldable pub answer : ℕ → Option ℕ → ℕ → List Event → List Event
answer p none message log = release (call p) ∷ log
answer p (some cb) message log = reply cb message ∷ release (call p) ∷ log

unfoldable pub on_pending_call : ℕ → ℕ → Connection → Connection
unfolding answer
on_pending_call pending message s = elim (find pending s.pending_messages) [
  | none ↦ s
  | some cb ↦ record s {
    pending_messages = erase pending s.pending_messages;
    log = answer pending cb message s.log;
  }
]
