-- ===== src/Names.antt =====
-- The callbacks of class connection for changes of bus names, lib/ultrabus/connection.cpp: the
-- connection is its own message filter, and registers a match rule for each callback that is set.
pub mod Rules
pub mod Dispatch
pub mod Session
pub mod Drift
use Prim.Native.String.{String}
use text.Mathlib.Text.{◌==◌ as str_eq}
use libultrabus.Common.{
  ℕ, Bool, true, false, not, ◌&&◌, ◌||◌, Option, none, some, List, [], ◌∷◌, if◌then◌else◌,
}
use libultrabus.Matches.{Filter, new_filter, add_match_async, remove_match_async, say, closed}

-- A call of a callback; `lost` and `acquired` pass false and true as the last argument.
pub data Called : Type 0 where
  owner_changed : (callback : ℕ) (name old_owner new_owner : String) → Called
  lost : (callback : ℕ) (name : String) → Called
  acquired : (callback : ℕ) (name : String) → Called

-- A signal. `arg` and `args` are what get_args gives for one string and for three.
pub record Signal : Type 0 where
  pub interface : String
  pub path : String
  pub sender : String
  pub name : String
  pub arg : Option String
  pub args : Option (String × String × String)

-- `asked` holds the signals that wait for the reply to get_name_owner.
pub record Names : Type 0 where
  pub filter : Filter
  pub name_owner_changed_cb : Option ℕ
  pub name_lost_cb : Option ℕ
  pub name_acquired_cb : Option ℕ
  pub unique_bus_name : String
  pub asked : List Signal
  pub calls : List Called

abbrev pub no_names : Names
no_names = record {
  filter = new_filter;
  name_owner_changed_cb = none;
  name_lost_cb = none;
  name_acquired_cb = none;
  unique_bus_name = "";
  asked = [];
  calls = [];
}

abbrev pub owner_changed_rule : String
owner_changed_rule =
    "type='signal',sender='org.freedesktop.DBus',path='/org/freedesktop/DBus',interface='org.freedesktop.DBus',member='NameOwnerChanged'"

abbrev pub lost_rule : String
lost_rule =
    "type='signal',sender='org.freedesktop.DBus',path='/org/freedesktop/DBus',interface='org.freedesktop.DBus',member='NameLost'"

abbrev pub acquired_rule : String
acquired_rule =
    "type='signal',sender='org.freedesktop.DBus',path='/org/freedesktop/DBus',interface='org.freedesktop.DBus',member='NameAcquired'"

-- The rule is added with the first callback and removed with the last, without waiting for the
-- bus. `conn_up` is what is_connected answers in add_match and remove_match, `sends` what `send`
-- answers there.
unfoldable pub change_rule : Bool → Bool → String → Option ℕ → Option ℕ → Filter → Filter × Bool
change_rule conn_up sends rule none (some cb) f = add_match_async conn_up sends none rule f
change_rule conn_up sends rule (some old) none f = remove_match_async conn_up sends none rule f
change_rule conn_up sends rule none none f = (f, true)
change_rule conn_up sends rule (some old) (some cb) f = (f, true)

unfoldable pub set_name_owner_changed_cb : Bool → Bool → Option ℕ → Names → Names × Bool
unfolding change_rule
set_name_owner_changed_cb conn_up sends callback s =
    let (f, ok) =
      change_rule conn_up sends owner_changed_rule s.name_owner_changed_cb callback s.filter in
    if conn_up
    then (
      record s {
        filter = f;
        name_owner_changed_cb = if ok then callback else s.name_owner_changed_cb;
      },
      ok,
    )
    else (s, false)

unfoldable pub set_name_lost_cb : Bool → Bool → Option ℕ → Names → Names × Bool
unfolding change_rule
set_name_lost_cb conn_up sends callback s =
    let (f, ok) = change_rule conn_up sends lost_rule s.name_lost_cb callback s.filter in
    if conn_up
    then (record s { filter = f; name_lost_cb = if ok then callback else s.name_lost_cb }, ok)
    else (s, false)

unfoldable pub set_name_acquired_cb : Bool → Bool → Option ℕ → Names → Names × Bool
unfolding change_rule
set_name_acquired_cb conn_up sends callback s =
    let (f, ok) = change_rule conn_up sends acquired_rule s.name_acquired_cb callback s.filter in
    if conn_up
    then (
      record s { filter = f; name_acquired_cb = if ok then callback else s.name_acquired_cb },
      ok,
    )
    else (s, false)

abbrev pub is_set : Option ℕ → Bool
is_set none = false
is_set (some cb) = true

abbrev pub called : Called → Names → Names × Bool
called c s = (record s { calls = c ∷ s.calls }, true)

abbrev pub call_owner_changed : Option ℕ → Option (String × String × String) → Names → Names × Bool
call_owner_changed (some cb) (some (name, old_owner, new_owner)) s =
    called (owner_changed cb name old_owner new_owner) s
call_owner_changed _ _ s = (s, false)

abbrev pub call_lost : Option ℕ → Option String → Names → Names × Bool
call_lost (some cb) (some name) s = called (lost cb name) s
call_lost _ _ s = (s, false)

abbrev pub call_acquired : Option ℕ → Option String → Names → Names × Bool
call_acquired (some cb) (some name) s = called (acquired cb name) s
call_acquired _ _ s = (s, false)

unfoldable pub on_signal_impl : Signal → Names → Names × Bool
on_signal_impl msg s =
    if not (str_eq msg.sender s.unique_bus_name)
    then (s, false)
    else (if str_eq msg.name "NameOwnerChanged" && is_set s.name_owner_changed_cb
        then call_owner_changed s.name_owner_changed_cb msg.args s
        else (if str_eq msg.name "NameLost" && is_set s.name_lost_cb
            then call_lost s.name_lost_cb msg.arg s
            else (if str_eq msg.name "NameAcquired" && is_set s.name_acquired_cb
                then call_acquired s.name_acquired_cb msg.arg s
                else (s, false))))

-- `starts` is what the asynchronous get_name_owner returns, if it is called.
unfoldable pub on_signal : Bool → Signal → Names → Names × Bool
unfolding on_signal_impl
on_signal starts msg s =
    if not (str_eq msg.interface "org.freedesktop.DBus")
      || not (str_eq msg.path "/org/freedesktop/DBus")
    then (s, false)
    else (if not (is_set s.name_owner_changed_cb)
          && (not (is_set s.name_lost_cb) && not (is_set s.name_acquired_cb))
        then (s, false)
        else (if str_eq s.unique_bus_name ""
            then (if starts then record s { asked = msg ∷ s.asked } else s, starts)
            else on_signal_impl msg s))

-- The callback that get_name_owner is given: `owner` is the value of its result, empty on error.
unfoldable pub on_name_owner : String → Signal → Names → Names
unfolding on_signal_impl
on_name_owner owner msg s = (on_signal_impl msg (record s { unique_bus_name = owner })).0

-- What disconnect_impl does to these fields: the rules of the filter stay.
unfoldable pub drop_names : Names → Names
drop_names s = record s {
  filter = say closed s.filter;
  name_owner_changed_cb = none;
  name_lost_cb = none;
  name_acquired_cb = none;
  unique_bus_name = "";
}
