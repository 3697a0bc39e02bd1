-- ===== src/Subscriptions.antt =====
-- The signal callbacks of the standard interfaces: org_freedesktop_DBus_Properties.cpp and
-- org_freedesktop_DBus_ObjectManager.cpp of lib/ultrabus. A callback is kept by the unique name of a
-- connection and an object path, and has a match rule in the filter of its class.
pub mod Changes
pub mod Rules
pub mod Covered
pub mod Delivered
use Prim.Native.String.{String}
use Prim.Native.String.{◌++◌ as concat}
use Prim.Native.Char.{code}
use text.Mathlib.Text.{◌==◌ as str_eq}
use libultrabus.Common.{
  ℕ, Bool, true, false, not, ◌&&◌, ◌==◌, Option, none, some, List, [], ◌∷◌, if◌then◌else◌,
}
use libultrabus.Common.Pairs.{Entry, find_callback, erase_callback, put_callback}
use libultrabus.Retvalue.{Retvalue, of_value, fail, minus_one, is_zero}
use libultrabus.Matches.{Filter, Reply, add_match, remove_match}
use libultrabus.Methods.Replies.{set_of}

-- What a setter asks: dbus_validate_bus_name, dbus_validate_path, get_name_owner if it is called,
-- is_connected, and the replies to AddMatch and RemoveMatch.
pub record Env : Type 0 where
  pub valid_name : String → Bool
  pub valid_path : String → Bool
  pub owner : Retvalue String
  pub up : Bool
  pub add_reply : Reply
  pub remove_reply : Reply

-- A map of callbacks with the filter that its rules are in.
pub record Table : Type 0 where
  pub filter : Filter
  pub entries : List Entry

-- make_props_changed_rule
unfoldable pub properties_rule : String → String → String
properties_rule bus_name opath = concat (concat "type='signal'" ",sender='") (
    concat bus_name (
      concat "'" (
        concat ",path='" (
          concat opath (
            concat "'" (
              concat ",interface='org.freedesktop.DBus.Properties'"
                ",member='PropertiesChanged'"))))))

-- make_iface_added_rule
unfoldable pub added_rule : String → String → String
added_rule bus_name opath = concat "type='signal',sender='" (
    concat bus_name (
      concat "',path='"
        (concat opath "',interface='org.freedesktop.DBus.ObjectManager',member='InterfacesAdded'")))

-- make_iface_removed_rule
unfoldable pub removed_rule : String → String → String
removed_rule bus_name opath = concat "type='signal',sender='" (
    concat bus_name (
      concat "',path='" (
        concat opath
          "',interface='org.freedesktop.DBus.ObjectManager',member='InterfacesRemoved'")))

-- bus_name[0] == ':'
unfoldable pub is_unique : String → Bool
is_unique String.[] = false
is_unique (String.◌∷◌ c s) = code c == b':'

abbrev pub refused : String → Retvalue Bool
refused description = fail minus_one description (of_value false)

module _ (env : Env) (rule : String → String → String) where
  -- The branches of the three functions whose names end in _impl, by the callback that is there and
  -- the one that is given.
  unfoldable pub change : String → String → Option ℕ → Option ℕ → Table → Table × Retvalue Bool
  change bus_name opath none none t = (t, of_value true)
  change bus_name opath none (some cb) t =
      let (f, ret) = add_match env.up env.add_reply (rule bus_name opath) t.filter in
      let added = put_callback bus_name opath cb t.entries in
      (
        record {
          filter = f;
          entries = if ret.value then added else erase_callback bus_name opath added;
        },
        ret,
      )
  change bus_name opath (some old) (some cb) t =
      (record t { entries = put_callback bus_name opath cb t.entries }, of_value true)
  change bus_name opath (some old) none t = (
    record {
      filter = (remove_match env.up env.remove_reply (rule bus_name opath) t.filter).0;
      entries = erase_callback bus_name opath t.entries;
    },
    of_value true,
  )

  unfoldable pub set_callback_impl : String → String → Option ℕ → Table → Table × Retvalue Bool
  unfolding change
  set_callback_impl bus_name opath callback t =
      change bus_name opath (find_callback bus_name opath t.entries) callback t

  -- What the three setters have in common, which differ in the map and in the rule.
  unfoldable pub set_callback : String → String → Option ℕ → Table → Table × Retvalue Bool
  unfolding set_callback_impl is_unique
  set_callback bus_name opath callback t =
      if not (env.valid_name bus_name)
      then (t, refused "Invalid bus name")
      else if not (env.valid_path opath)
      then (t, refused "Invalid object path")
      else if is_unique bus_name
      then set_callback_impl bus_name opath callback t
      else if is_zero env.owner.err_num
      then set_callback_impl env.owner.value opath callback t
      else (t, refused env.owner.err_str)

-- A call of a properties-changed callback: the interface, the changed properties, whose values are
-- numbers here, and the names of the invalidated ones.
pub record Changed : Type 0 where
  pub callback : ℕ
  pub interface : String
  pub properties : List (String × ℕ)
  pub invalidated : List String

-- A signal: what it names, and what get_args_strict makes of its arguments for PropertiesChanged,
-- InterfacesAdded and InterfacesRemoved.
pub record Signal : Type 0 where
  pub interface : String
  pub name : String
  pub sender : String
  pub path : String
  pub changed : Option (String × List (String × ℕ) × List String)
  pub added : Option (String × List (String × ℕ))
  pub removed : Option (String × List String)

-- class org_freedesktop_DBus_Properties
pub record Properties : Type 0 where
  pub props_changed : Table
  pub calls : List Changed

unfoldable pub set_properties_changed_callback :
    Env → String → String → Option ℕ → Properties → Properties × Retvalue Bool
unfolding set_callback properties_rule
set_properties_changed_callback env bus_name opath callback s =
    let (t, ret) = set_callback env properties_rule bus_name opath callback s.props_changed in
    (record s { props_changed = t }, ret)

abbrev pub call_changed :
    Option ℕ → Option (String × List (String × ℕ) × List String) → Properties → Properties
call_changed none args s = s
call_changed (some cb) none s = s
call_changed (some cb) (some (i, ps, names)) s = record s {
  calls =
      record { callback = cb; interface = i; properties = ps; invalidated = set_of names }
      ∷ s.calls;
}

-- org_freedesktop_DBus_Properties::on_signal, which always returns false.
unfoldable pub on_properties_signal : Signal → Properties → Properties
unfolding find_callback
on_properties_signal msg s =
    if str_eq msg.interface "org.freedesktop.DBus.Properties" && str_eq msg.name "PropertiesChanged"
    then call_changed (find_callback msg.sender msg.path s.props_changed.entries) msg.changed s
    else s

-- A call of a callback of the object manager.
pub data Managed : Type 0 where
  added_call : (callback : ℕ) → String → List (String × ℕ) → Managed
  removed_call : (callback : ℕ) → String → List String → Managed

-- class org_freedesktop_DBus_ObjectManager: two maps, one filter.
pub record ObjectManager : Type 0 where
  pub filter : Filter
  pub iface_added : List Entry
  pub iface_removed : List Entry
  pub calls : List Managed

abbrev pub added_table : ObjectManager → Table
added_table s = record { filter = s.filter; entries = s.iface_added }

abbrev pub removed_table : ObjectManager → Table
removed_table s = record { filter = s.filter; entries = s.iface_removed }

unfoldable pub set_interfaces_added_callback :
    Env → String → String → Option ℕ → ObjectManager → ObjectManager × Retvalue Bool
unfolding set_callback added_rule
set_interfaces_added_callback env bus_name opath callback s =
    let (t, ret) = set_callback env added_rule bus_name opath callback (added_table s) in
    (record s { filter = t.filter; iface_added = t.entries }, ret)

unfoldable pub set_interfaces_removed_callback :
    Env → String → String → Option ℕ → ObjectManager → ObjectManager × Retvalue Bool
unfolding set_callback removed_rule
set_interfaces_removed_callback env bus_name opath callback s =
    let (t, ret) = set_callback env removed_rule bus_name opath callback (removed_table s) in
    (record s { filter = t.filter; iface_removed = t.entries }, ret)

-- handle_added_ifaces and handle_removed_ifaces
abbrev pub call_added :
    Option ℕ → Option (String × List (String × ℕ)) → ObjectManager → ObjectManager
call_added none args s = s
call_added (some cb) none s = s
call_added (some cb) (some (p, ifaces)) s = record s { calls = added_call cb p ifaces ∷ s.calls }

abbrev pub call_removed : Option ℕ → Option (String × List String) → ObjectManager → ObjectManager
call_removed none args s = s
call_removed (some cb) none s = s
call_removed (some cb) (some (p, names)) s = record s {
  calls = removed_call cb p (set_of names) ∷ s.calls;
}

-- org_freedesktop_DBus_ObjectManager::on_signal
unfoldable pub on_manager_signal : Signal → ObjectManager → ObjectManager
unfolding find_callback
on_manager_signal msg s =
    if not (str_eq msg.interface "org.freedesktop.DBus.ObjectManager")
    then s
    else if str_eq msg.name "InterfacesAdded"
    then call_added (find_callback msg.sender msg.path s.iface_added) msg.added s
    else if str_eq msg.name "InterfacesRemoved"
    then call_removed (find_callback msg.sender msg.path s.iface_removed) msg.removed s
    else s
