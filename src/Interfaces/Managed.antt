-- ===== src/Interfaces/Managed.antt =====
-- The method call of lib/ultrabus/org_freedesktop_DBus_ObjectManager.cpp. The properties of an
-- interface of an object are a number.
use Prim.Native.String.{String}
use text.Mathlib.Text.{◌==◌ as str_eq}
use text.Mathlib.TextEquality.{eq_iff}
use libultrabus.Common.{
  ℕ, ◌≡◌, refl, Bool, true, false, ◌&&◌, Option, none, some, List, [], ◌∷◌, if◌then◌else◌,
  Bool-cases, inl, inr, ap, sym,
}
use libultrabus.Retvalue.{Retvalue, of_value}
use libultrabus.Methods.Replies.{Reply, error, value, invalid}
use libultrabus.Methods.Frames.{Call, Waited, Started}
use libultrabus.Interfaces.{
  Env, method_call, take_reply, check_all, refuse_by, asked, send_call, send_if, bus_check,
}

-- std::map from text, as a list of entries.
module _ {V : Type 0} where
  unfoldable pub find_key : String → List (String × V) → Option V
  find_key k [] = none
  find_key k ((j, v) ∷ m) = let rest = find_key k m in if str_eq j k then some v else rest

  -- `emplace`: an entry of the key stays.
  unfoldable pub emplace_key : String → V → List (String × V) → List (String × V)
  unfolding find_key
  emplace_key k v m = elim (find_key k m) [ none ↦ (k, v) ∷ m | some w ↦ m ]

abbrev pub Ifaces : Type 0
Ifaces = List (String × ℕ)

-- The loop over the interfaces of an object.
unfoldable pub emplace_ifaces : Ifaces → Ifaces → Ifaces
unfolding emplace_key
emplace_ifaces [] m = m
emplace_ifaces ((iface, properties) ∷ ifaces) m =
    emplace_ifaces ifaces (emplace_key iface properties m)

-- The loop over the objects.
unfoldable pub emplace_objects :
    List (String × Ifaces) → List (String × Ifaces) → List (String × Ifaces)
unfolding emplace_key emplace_ifaces
emplace_objects [] mo = mo
emplace_objects ((opath, ifaces) ∷ all) mo =
    emplace_objects all (emplace_key opath (emplace_ifaces ifaces []) mo)

abbrev pub managed_expected : String
managed_expected = "Invalid DBus reply argument, expected 'a{oa{sa{sv}}}', got '"

unfoldable pub handle_get_managed_objects_reply :
    Reply (List (String × Ifaces)) → Retvalue (List (String × Ifaces))
unfolding take_reply emplace_objects
handle_get_managed_objects_reply (error name msg) = take_reply [] managed_expected (error name msg)
handle_get_managed_objects_reply (value all) = of_value (emplace_objects all [])
handle_get_managed_objects_reply (invalid signature) =
    take_reply [] managed_expected (invalid signature)

-- org_freedesktop_DBus_ObjectManager::get_managed_objects.
abbrev pub managed_objects_call : String → String → Call
managed_objects_call bus_name opath =
    method_call bus_name opath "org.freedesktop.DBus.ObjectManager" "GetManagedObjects" []

unfoldable pub get_managed_objects :
    Env → String → String → Reply (List (String × Ifaces)) → Waited (List (String × Ifaces))
unfolding check_all handle_get_managed_objects_reply
get_managed_objects env bus_name opath reply =
    check_all
      (bus_check env "Invalid bus name" bus_name
        ∷ (env.valid_path opath, "Invalid object path")
        ∷ [])
      (refuse_by [])
      (asked (managed_objects_call bus_name opath) (handle_get_managed_objects_reply reply))

unfoldable pub get_managed_objects_async :
    Env → String → String → Option ℕ → Started (List (String × Ifaces))
unfolding send_call handle_get_managed_objects_reply
get_managed_objects_async env bus_name opath callback =
    send_if (env.valid_name bus_name && env.valid_path opath) (
      send_call env false (managed_objects_call bus_name opath) callback
        handle_get_managed_objects_reply)

abbrev looked : String → Option Ifaces → Option ℕ
looked iface none = none
looked iface (some ifaces) = find_key iface ifaces

-- What is listed for an interface of an object.
unfoldable pub properties_of : String → String → List (String × Ifaces) → Option ℕ
unfolding find_key
properties_of opath iface mo = looked iface (find_key opath mo)

abbrev pub or_first : {A : Type 0} → Option A → Option A → Option A
or_first none o = o
or_first (some a) o = some a

or_first-none : {A : Type 0} (o : Option A) → or_first o none ≡ o
or_first-none none = refl
or_first-none (some a) = refl

-- The first entry of a key is the one that counts.
module _ {V : Type 0} where
  same_found :
      (k q : String) (m : List (String × V)) → str_eq k q ≡ true → find_key q m ≡ find_key k m
  same_found k q m e = ap (λ x. find_key x m) (sym ((eq_iff k q).0 e))

  emplaced :
      (q k : String) (v : V) (m : List (String × V)) (o : Option V)
      → find_key k m ≡ o
      → find_key q (emplace_key k v m)
        ≡ or_first (find_key q m) (if str_eq k q then some v else none)
  unfolding find_key emplace_key
  emplaced q k v m none e = elim (Bool-cases (str_eq k q)) [
    | inl h ↦ rw (emplace_key, e, h, same_found k q m h, e) refl
    | inr h ↦ rw (emplace_key, e, h, or_first-none (find_key q m)) refl
  ]
  emplaced q k v m (some w) e = elim (Bool-cases (str_eq k q)) [
    | inl h ↦ rw (emplace_key, e, h, same_found k q m h, e) refl
    | inr h ↦ rw (emplace_key, e, h, or_first-none (find_key q m)) refl
  ]

  same_first :
      (q k : String) (v : V) (es : List (String × V)) (o : Option V)
      → or_first (or_first o (if str_eq k q then some v else none)) (find_key q es)
        ≡ or_first o (find_key q ((k, v) ∷ es))
  unfolding find_key
  same_first q k v es (some w) = refl
  same_first q k v es none = elim (Bool-cases (str_eq k q)) [
    | inl h ↦ rw (h) refl
    | inr h ↦ rw (h) refl
  ]

find_key-emplace_ifaces :
    (q : String) (fs m : Ifaces)
    → find_key q (emplace_ifaces fs m) ≡ or_first (find_key q m) (find_key q fs)
unfolding emplace_ifaces find_key
find_key-emplace_ifaces q [] m = sym (or_first-none (find_key q m))
find_key-emplace_ifaces q ((k, v) ∷ fs) m =
    rw (find_key-emplace_ifaces q fs (emplace_key k v m), emplaced q k v m (find_key k m) refl)
      (same_first q k v fs (find_key q m))

abbrev gathered : Option Ifaces → Option Ifaces
gathered none = none
gathered (some fs) = some (emplace_ifaces fs [])

gather_first :
    (b : Bool) (fs : Ifaces) (o p : Option Ifaces)
    → or_first (or_first o (if b then some (emplace_ifaces fs []) else none)) (gathered p)
      ≡ or_first o (gathered (if b then some fs else p))
gather_first true fs none p = refl
gather_first true fs (some w) p = refl
gather_first false fs none p = refl
gather_first false fs (some w) p = refl

find_key-emplace_objects :
    (q : String) (all mo : List (String × Ifaces))
    → find_key q (emplace_objects all mo) ≡ or_first (find_key q mo) (gathered (find_key q all))
unfolding emplace_objects find_key
find_key-emplace_objects q [] mo = sym (or_first-none (find_key q mo))
find_key-emplace_objects q ((k, fs) ∷ all) mo =
    rw
      (
        find_key-emplace_objects q all (emplace_key k (emplace_ifaces fs []) mo),
        emplaced q k (emplace_ifaces fs []) mo (find_key k mo) refl,
      )
      (gather_first (str_eq k q) fs (find_key q mo) (find_key q all))

looked-gathered : (iface : String) (o : Option Ifaces) → looked iface (gathered o) ≡ looked iface o
unfolding find_key
looked-gathered iface none = refl
looked-gathered iface (some fs) = find_key-emplace_ifaces iface fs []

-- What the reply lists is what the result lists.
pub properties_of-emplace_objects :
    (opath iface : String) (all : List (String × Ifaces))
    → properties_of opath iface (emplace_objects all []) ≡ properties_of opath iface all
unfolding properties_of
properties_of-emplace_objects opath iface all =
    rw (find_key-emplace_objects opath all []) (looked-gathered iface (find_key opath all))
