-- ===== src/Objects.antt =====
-- The object paths of an object handler, lib/ultrabus/object_handler.cpp.
pub mod Paths
pub mod Registered
pub mod Handling
use Prim.Native.String.{String}
use text.Mathlib.Text.{◌==◌ as str_eq}
use libultrabus.Common.{
  ℕ, Bool, true, false, not, ◌&&◌, Option, none, some, List, [], ◌∷◌, if◌then◌else◌,
}
use Paths.{Entry, find_path, erase_path, put_path}

-- What the handler and libdbus do: a path is registered, one is taken back, and the connection is
-- closed, with which libdbus forgets the paths.
pub data Registration : Type 0 where
  registered : String → Registration
  unregistered : String → Registration
  closed : Registration

pub record Handler : Type 0 where
  pub opath_map : List Entry
  pub log : List Registration

abbrev pub new_handler : Handler
new_handler = record { opath_map = []; log = [] }

abbrev pub register_found :
    Bool → Bool → String → Option ℕ → Option (Option ℕ) → Handler → Handler × Bool
register_found conn_up registers opath callback (some old) s =
    (record s { opath_map = put_path opath callback s.opath_map }, true)
register_found conn_up registers opath callback none s =
    if conn_up
    then (if registers
        then (
          record {
            opath_map = put_path opath callback s.opath_map;
            log = registered opath ∷ s.log;
          },
          true,
        )
        else (
          record s { opath_map = erase_path opath (put_path opath callback s.opath_map) },
          false,
        ))
    else (s, false)

-- `registers` is what dbus_connection_try_register_fallback or
-- dbus_connection_try_register_object_path answers; an empty callback is none.
unfoldable pub register_object_path : Bool → Bool → String → Option ℕ → Handler → Handler × Bool
unfolding find_path
register_object_path conn_up registers opath callback s =
    register_found conn_up registers opath callback (find_path opath s.opath_map) s

abbrev pub unregister_found : Bool → String → Option (Option ℕ) → Handler → Handler × Bool
unregister_found unregisters opath none s = (s, true)
unregister_found unregisters opath (some old) s =
    if unregisters
    then (
      record { opath_map = erase_path opath s.opath_map; log = unregistered opath ∷ s.log },
      true,
    )
    else (s, false)

-- `unregisters` is what dbus_connection_unregister_object_path answers.
unfoldable pub unregister_object_path : Bool → Bool → String → Handler → Handler × Bool
unfolding find_path
unregister_object_path conn_up unregisters opath s =
    if conn_up
    then unregister_found unregisters opath (find_path opath s.opath_map) s
    else (s, false)

-- The loop of the destructor, which ignores what dbus_connection_unregister_object_path answers for
-- a path.
unfoldable pub unregister_all :
    (unregisters : String → Bool) → List Entry → List Registration → List Registration
unregister_all unregisters [] log = log
unregister_all unregisters (e ∷ es) log =
    unregister_all unregisters es (if unregisters e.path then unregistered e.path ∷ log else log)

-- The destructor.
unfoldable pub destroy : Bool → (unregisters : String → Bool) → Handler → List Registration
unfolding unregister_all
destroy conn_up unregisters s =
    if conn_up then unregister_all unregisters s.opath_map s.log else s.log

-- Whether libdbus has a path for this handler.
unfoldable pub is_registered : String → List Registration → Bool
is_registered q [] = false
is_registered q (registered p ∷ l) =
    let rest = is_registered q l in if str_eq p q then true else rest
is_registered q (unregistered p ∷ l) =
    let rest = is_registered q l in if str_eq p q then false else rest
is_registered q (closed ∷ l) = false
