-- ===== src/Interfaces/Proxied.antt =====
-- The property calls of an object proxy, its constructor and its default interface:
-- lib/ultrabus/object_proxy.cpp.
use Prim.Native.String.{String}
use libultrabus.Common.{
  ℕ, ◌≡◌, refl, Bool, true, false, not, ◌&&◌, ◌||◌, Option, none, some, List, [], ◌∷◌, arith,
  if◌then◌else◌, Bool-cases, inl, inr,
}
use libultrabus.Methods.Replies.{Reply, handle_void_reply}
use libultrabus.Methods.Frames.{Waited, Started, not_started}
use libultrabus.Proxy.{is_empty}
use libultrabus.Subscriptions.{is_unique}
use libultrabus.Interfaces.{Env, take_reply, check_all, refuse_by, asked, send_call, send_if}
use libultrabus.Interfaces.Properties.{
  get_call, get_all_call, set_call, variant_expected, dict_expected, forget_refusal,
}

pub record Target : Type 0 where
  pub target : String
  pub opath : String
  pub def_iface : String
  pub target_unique_name : String

pub data Made : Type 0 where
  made : Target → Made
  invalid_argument : String → Made

-- object_proxy::object_proxy
unfoldable pub make_proxy : Env → String → String → String → Made
make_proxy env bus_name object_path iface =
    if not (env.valid_name bus_name)
    then invalid_argument "Invalid DBus bus name"
    else if not (env.valid_path object_path)
    then invalid_argument "Invalid DBus object path"
    else if not (is_empty iface) && not (env.valid_interface iface)
    then invalid_argument "Invalid DBus interface name"
    else made (record {
      target = bus_name;
      opath = object_path;
      def_iface = iface;
      target_unique_name = if is_unique bus_name then bus_name else "";
    })

-- object_proxy::default_interface (const std::string&)
unfoldable pub default_interface : Env → String → Target → Target × Bool
default_interface env iface t =
    if not (is_empty iface) && not (env.valid_interface iface)
    then (t, false)
    else (record t { def_iface = iface }, true)

abbrev pub names_interface : Env → String → Bool
names_interface env interface = not (is_empty interface || not (env.valid_interface interface))

abbrev pub iface_check : Env → String → List (Bool × String)
iface_check env interface = (names_interface env interface, "Invalid interface name") ∷ []

unfoldable pub get_iface_property : Env → Target → String → String → Reply ℕ → Waited ℕ
unfolding check_all take_reply
get_iface_property env t interface property_name reply =
    check_all (iface_check env interface) (refuse_by 0) (
      asked (get_call t.target t.opath interface property_name)
        (take_reply 0 variant_expected reply))

unfoldable pub get_iface_property_async : Env → Target → String → String → Option ℕ → Started ℕ
unfolding send_call take_reply
get_iface_property_async env t interface property_name callback =
    send_if (names_interface env interface) (
      send_call env false (get_call t.target t.opath interface property_name) callback
        (take_reply 0 variant_expected))

unfoldable pub get_all_iface_properties :
    Env → Target → String → Reply (List (String × ℕ)) → Waited (List (String × ℕ))
unfolding check_all take_reply
get_all_iface_properties env t interface reply =
    check_all (iface_check env interface) (refuse_by [])
      (asked (get_all_call t.target t.opath interface) (take_reply [] dict_expected reply))

unfoldable pub get_all_iface_properties_async :
    Env → Target → String → Option ℕ → Started (List (String × ℕ))
unfolding send_call take_reply
get_all_iface_properties_async env t interface callback = send_if (names_interface env interface) (
    send_call env false (get_all_call t.target t.opath interface) callback
      (take_reply [] dict_expected))

unfoldable pub set_iface_property : Env → Target → String → String → ℕ → Reply Bool → Waited Bool
unfolding check_all forget_refusal handle_void_reply
set_iface_property env t interface property_name v reply =
    check_all (iface_check env interface) forget_refusal
      (asked (set_call t.target t.opath interface property_name v) (handle_void_reply reply))

unfoldable pub set_iface_property_async :
    Env → Target → String → String → ℕ → Option ℕ → Started Bool
unfolding send_call handle_void_reply
set_iface_property_async env t interface property_name v callback =
    send_if (names_interface env interface) (
      send_call env false (set_call t.target t.opath interface property_name v) callback
        handle_void_reply)

-- get_property, get_all_properties and set_property: those of the default interface.
abbrev pub get_property : Env → Target → String → Reply ℕ → Waited ℕ
get_property env t = get_iface_property env t t.def_iface

abbrev pub get_property_async : Env → Target → String → Option ℕ → Started ℕ
get_property_async env t = get_iface_property_async env t t.def_iface

abbrev pub get_all_properties :
    Env → Target → Reply (List (String × ℕ)) → Waited (List (String × ℕ))
get_all_properties env t = get_all_iface_properties env t t.def_iface

abbrev pub get_all_properties_async : Env → Target → Option ℕ → Started (List (String × ℕ))
get_all_properties_async env t = get_all_iface_properties_async env t t.def_iface

abbrev pub set_property : Env → Target → String → ℕ → Reply Bool → Waited Bool
set_property env t = set_iface_property env t t.def_iface

abbrev pub set_property_async : Env → Target → String → ℕ → Option ℕ → Started Bool
set_property_async env t = set_iface_property_async env t t.def_iface

-- set_property of a const char*, given as its variant, with none for the null pointer.
unfoldable pub set_text_property : Env → Target → String → Option ℕ → Reply Bool → Waited Bool
unfolding set_iface_property
set_text_property env t property_name none reply = record {
  call = none;
  result = refuse_by false "Invalid null pointer argument";
}
set_text_property env t property_name (some v) reply = set_property env t property_name v reply

unfoldable pub set_text_property_async : Env → Target → String → Option ℕ → Option ℕ → Started Bool
unfolding set_iface_property_async
set_text_property_async env t property_name none callback = not_started
set_text_property_async env t property_name (some v) callback =
    set_property_async env t property_name v callback

pub record IsValid (env : Env) (t : Target) : Type 0 where
  pub name : env.valid_name t.target ≡ true
  pub path : env.valid_path t.opath ≡ true
  pub interface : (is_empty t.def_iface || env.valid_interface t.def_iface) ≡ true

-- The constructor gives a valid proxy, and throws exactly on an invalid argument.
abbrev pub acceptable : Env → String → String → String → Bool
acceptable env bus_name object_path iface =
    env.valid_name bus_name
    && (env.valid_path object_path && (is_empty iface || env.valid_interface iface))

abbrev pub MadeOk : Env → Bool → Made → Type 0
MadeOk env ok (made t) = (ok ≡ true) × IsValid env t
MadeOk env ok (invalid_argument text) = ok ≡ false

make_proxy-MadeOk :
    (env : Env) (bus_name object_path iface : String)
    → MadeOk env
        (acceptable env bus_name object_path iface)
        (make_proxy env bus_name object_path iface)
unfolding make_proxy
make_proxy-MadeOk env bus_name object_path iface = elim (Bool-cases (env.valid_name bus_name)) [
  | inr n ↦ rw (n) refl
  | inl n ↦ elim (Bool-cases (env.valid_path object_path)) [
    | inr p ↦ rw (n, p) refl
    | inl p ↦ elim (Bool-cases (is_empty iface || env.valid_interface iface)) [
      | inr i ↦
          let r : (not (is_empty iface) && not (env.valid_interface iface)) ≡ true = ground arith in
          rw (n, p, r, i) refl
      | inl i ↦
          let r : (not (is_empty iface) && not (env.valid_interface iface)) ≡ false =
            ground arith in
          rw (n, p, r, i) (refl, record { name = n; path = p; interface = i })
    ]
  ]
]

default_interface-IsValid :
    (env : Env) (iface : String) (t : Target)
    → IsValid env t
    → IsValid env (default_interface env iface t).0
unfolding default_interface
default_interface-IsValid env iface t v =
    elim (Bool-cases (is_empty iface || env.valid_interface iface)) [
      | inr i ↦
          let r : (not (is_empty iface) && not (env.valid_interface iface)) ≡ true = ground arith in
          rw (r) v
      | inl i ↦
          let r : (not (is_empty iface) && not (env.valid_interface iface)) ≡ false =
            ground arith in
          rw (r) (record { name = v.name; path = v.path; interface = i })
    ]
