-- ===== src/Proxy.antt =====
-- The callbacks of an object proxy, lib/ultrabus/object_proxy.cpp: which signals it asks the bus for
-- and which callback a signal is given to.

pub mod Clearing
pub mod Ifaces
pub mod Rooted
pub mod Setting
pub mod Routing
use Prim.Native.String.{String}
use Prim.Native.String.{◌++◌ as concat}
use text.Mathlib.Text.{◌==◌ as str_eq}
use libultrabus.Common.{
  ℕ, Bool, true, false, not, ◌&&◌, ◌||◌, Option, none, some, List, [], ◌∷◌, if◌then◌else◌,
}
use libultrabus.Retvalue.{Retvalue, is_zero}
use libultrabus.Matches.{Filter, Reply, add_match, remove_match}
use libultrabus.Common.Pairs.{Entry, find_callback, erase_callback, put_callback}

pub data Called : Type 0 where
  added_called : (callback : ℕ) → Called
  removed_called : (callback : ℕ) → Called
  changed_called : (callback : ℕ) → Called
  signal_called : (callback : ℕ) → Called

pub record Proxy : Type 0 where
  pub filter : Filter
  pub target_unique_name : String
  pub opath : String
  pub iface_add_om_root : String
  pub iface_del_om_root : String
  pub object_ifaces_added_cb : Option ℕ
  pub object_ifaces_removed_cb : Option ℕ
  pub properties_changed_cb : Option ℕ
  pub callbacks : List Entry
  pub calls : List Called

-- What the setters ask: dbus_validate_interface, dbus_validate_member, get_name_owner if it is
-- called, is_connected, and the replies to AddMatch and RemoveMatch.
pub record Env : Type 0 where
  pub valid_interface : String → Bool
  pub valid_member : String → Bool
  pub owner : Retvalue String
  pub up : Bool
  pub add_reply : Reply
  pub remove_reply : Reply

abbrev pub is_empty : String → Bool
is_empty s = str_eq s ""

abbrev pub quoted : String → String → String
quoted key value = if is_empty value then "" else concat (concat key value) "'"

-- make_signal_match_rule
unfoldable pub signal_rule : String → String → String → String → String
signal_rule owner opath interface signal = concat "type='signal',sender='" (
    concat owner (
      concat "',path='" (
        concat opath
          (concat "'" (concat (quoted ",interface='" interface) (quoted ",member='" signal))))))

-- make_props_changed_rule
unfoldable pub props_changed_rule : String → String → String
props_changed_rule owner opath = concat (concat "type='signal'" ",sender='") (
    concat owner (
      concat "',path='" (
        concat opath
          (concat "',interface='org.freedesktop.DBus.Properties'" ",member='PropertiesChanged'"))))

-- The owner of the target is asked for once.
unfoldable pub resolve : Env → Proxy → Proxy × Bool
resolve env s =
    if is_empty s.target_unique_name
    then (if is_zero env.owner.err_num
        then (record s { target_unique_name = env.owner.value }, true)
        else (s, false))
    else (s, true)

abbrev pub own_rule : String → String → Proxy → String
own_rule interface signal s = signal_rule s.target_unique_name s.opath interface signal

unfoldable pub change_callback : Env → String → String → Option ℕ → Option ℕ → Proxy → Proxy × Bool
change_callback env interface signal none none s = (s, true)
change_callback env interface signal (some old) none s = (
  record s {
    callbacks = erase_callback interface signal s.callbacks;
    filter = (remove_match env.up env.remove_reply (own_rule interface signal s) s.filter).0;
  },
  true,
)
change_callback env interface signal (some old) (some cb) s =
    (record s { callbacks = put_callback interface signal cb s.callbacks }, true)
change_callback env interface signal none (some cb) s =
    let (f, ret) = add_match env.up env.add_reply (own_rule interface signal s) s.filter in
    (
      record s {
        callbacks =
            if ret.value
            then put_callback interface signal cb s.callbacks
            else erase_callback interface signal (put_callback interface signal cb s.callbacks);
        filter = f;
      },
      ret.value,
    )

unfoldable pub set_signal_callback : Env → String → String → Option ℕ → Proxy → Proxy × Bool
unfolding resolve change_callback
set_signal_callback env interface signal callback s =
    if not (is_empty interface) && not (env.valid_interface interface)
    then (s, false)
    else (if not (is_empty signal) && not (env.valid_member signal)
        then (s, false)
        else (let (t, ok) = resolve env s in
            if ok
            then change_callback env interface signal (find_callback interface signal t.callbacks)
                callback t
            else (t, false)))

-- The second half of set_properties_changed_callback.
unfoldable pub change_properties : Env → Option ℕ → Option ℕ → Proxy → Proxy × Bool
change_properties env none none s = (s, true)
change_properties env (some old) (some cb) s = (record s { properties_changed_cb = some cb }, true)
change_properties env none (some cb) s =
    let (f, ret) =
      add_match env.up env.add_reply (props_changed_rule s.target_unique_name s.opath) s.filter in
    (
      record s {
        filter = f;
        properties_changed_cb = if ret.value then some cb else s.properties_changed_cb;
      },
      ret.value,
    )
change_properties env (some old) none s = (
  record s {
    filter =
        (remove_match env.up env.remove_reply (props_changed_rule s.target_unique_name s.opath)
          s.filter).0;
    properties_changed_cb = none;
  },
  true,
)

unfoldable pub set_properties_changed_callback : Env → Option ℕ → Proxy → Proxy × Bool
unfolding resolve change_properties
set_properties_changed_callback env callback s =
    let (t, ok) = resolve env s in
    if ok then change_properties env t.properties_changed_cb callback t else (t, false)

-- A signal: the object path that get_args_strict gives of the arguments of InterfacesAdded and
-- InterfacesRemoved, and whether it accepts those of PropertiesChanged.
pub record Signal : Type 0 where
  pub sender : String
  pub interface : String
  pub name : String
  pub path : String
  pub added_path : Option String
  pub removed_path : Option String
  pub changed_ok : Bool

abbrev pub or_else : Option ℕ → Option ℕ → Option ℕ
or_else (some cb) o = some cb
or_else none o = o

-- An empty string stands for any interface or any signal.
abbrev pub most_specific : String → String → List Entry → Option ℕ
most_specific interface signal es = or_else (find_callback interface signal es) (
    or_else (find_callback "" signal es)
      (or_else (find_callback interface "" es) (find_callback "" "" es)))

-- `answers` is what a callback returns.
abbrev pub call_found : (ℕ → Bool) → Option ℕ → Proxy → Proxy × Bool
call_found answers none s = (s, false)
call_found answers (some cb) s = (record s { calls = signal_called cb ∷ s.calls }, answers cb)

unfoldable pub call_signal : (ℕ → Bool) → Signal → Proxy → Proxy × Bool
unfolding find_callback
call_signal answers msg s = call_found answers (most_specific msg.interface msg.name s.callbacks) s

abbrev pub is_own : String → Option String → Bool
is_own opath none = false
is_own opath (some p) = str_eq p opath

-- on_iface_added, on_iface_removed and on_properties_changed: the callback is called if the
-- arguments are taken.
abbrev pub take : Bool → Called → Proxy → Proxy × Bool → Proxy × Bool
take true c s other = (record s { calls = c ∷ s.calls }, true)
take false c s other = other

-- The tests of on_signal, last to first; `other` is what the signal callbacks do.
abbrev pub is_changed : Signal → Bool
is_changed msg =
    str_eq msg.interface "org.freedesktop.DBus.Properties" && str_eq msg.name "PropertiesChanged"

abbrev pub is_object_manager : String → String → Signal → Bool
is_object_manager name root msg =
    str_eq msg.interface "org.freedesktop.DBus.ObjectManager"
    && (str_eq msg.name name && str_eq msg.path root)

abbrev pub try_changed : Option ℕ → Signal → Proxy → Proxy × Bool → Proxy × Bool
try_changed none msg s other = other
try_changed (some cb) msg s other =
    if is_changed msg then take msg.changed_ok (changed_called cb) s other else other

abbrev pub try_own_path : Signal → Proxy → Proxy × Bool → Proxy × Bool
try_own_path msg s other =
    if str_eq msg.path s.opath then try_changed s.properties_changed_cb msg s other else (s, false)

abbrev pub try_removed : Option ℕ → Signal → Proxy → Proxy × Bool → Proxy × Bool
try_removed none msg s other = try_own_path msg s other
try_removed (some cb) msg s other =
    if is_object_manager "InterfacesRemoved" s.iface_del_om_root msg
    then take (is_own s.opath msg.removed_path) (removed_called cb) s other
    else try_own_path msg s other

abbrev pub try_added : Option ℕ → Signal → Proxy → Proxy × Bool → Proxy × Bool
try_added none msg s other = try_removed s.object_ifaces_removed_cb msg s other
try_added (some cb) msg s other =
    if is_object_manager "InterfacesAdded" s.iface_add_om_root msg
    then take (is_own s.opath msg.added_path) (added_called cb) s other
    else try_removed s.object_ifaces_removed_cb msg s other

unfoldable pub on_signal : (ℕ → Bool) → Signal → Proxy → Proxy × Bool
unfolding call_signal
on_signal answers msg s =
    if str_eq msg.sender s.target_unique_name
    then try_added s.object_ifaces_added_cb msg s (call_signal answers msg s)
    else (s, false)
