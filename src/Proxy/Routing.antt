-- ===== src/Proxy/Routing.antt =====
-- Which callback of a proxy a signal is given to.
use Prim.Native.String.{String}
use text.Mathlib.Text.{◌==◌ as str_eq}
use libultrabus.Common.{ℕ, ◌≡◌, refl, Bool, true, false, Option, none, some, ◌∷◌, ap, ◌∙◌, if_intro}
use libultrabus.Matches.{Filter, Reply, success, remove_match, on_remove_reply}
use libultrabus.Retvalue.{Retvalue}
use libultrabus.Matches.Rules.{contains}
use libultrabus.Matches.Outcome.{remove_match-IsDone}
use libultrabus.Proxy.Setting.{set_signal_callback-IsApplied}
use libultrabus.Proxy.{
  signal_called, Proxy, Env, Signal, is_empty, own_rule, most_specific, is_object_manager, is_own,
  on_signal, call_signal, try_added, try_removed, try_own_path, set_signal_callback,
  set_properties_changed_callback, resolve, change_properties, props_changed_rule, signal_rule,
}

call_signal_found :
    (answers : ℕ → Bool) (msg : Signal) (s : Proxy) (cb : ℕ)
    → most_specific msg.interface msg.name s.callbacks ≡ some cb
    → call_signal answers msg s ≡ (record s { calls = signal_called cb ∷ s.calls }, answers cb)
unfolding call_signal
call_signal_found answers msg s cb e = rw (e) refl

-- A signal that is none of the three that a proxy knows.
abbrev pub IsPlain : Signal → Type 0
IsPlain msg =
    (str_eq msg.interface "org.freedesktop.DBus.ObjectManager" ≡ false)
    × (str_eq msg.interface "org.freedesktop.DBus.Properties" ≡ false)

try_own_path_plain :
    (msg : Signal) (s : Proxy) (o : Option ℕ) (other : Proxy × Bool)
    → IsPlain msg
    → str_eq msg.path s.opath ≡ true
    → s.properties_changed_cb ≡ o
    → try_own_path msg s other ≡ other
try_own_path_plain msg s none other p e f = rw (e, f) refl
try_own_path_plain msg s (some cb) other p e f = rw (e, f, p.1) refl

try_removed_plain :
    (msg : Signal) (s : Proxy) (o : Option ℕ) (other : Proxy × Bool)
    → IsPlain msg
    → str_eq msg.path s.opath ≡ true
    → try_removed o msg s other ≡ other
try_removed_plain msg s none other p e = try_own_path_plain msg s _ other p e refl
try_removed_plain msg s (some cb) other p e = rw (p.0) (try_own_path_plain msg s _ other p e refl)

try_added_plain :
    (msg : Signal) (s : Proxy) (o : Option ℕ) (other : Proxy × Bool)
    → IsPlain msg
    → str_eq msg.path s.opath ≡ true
    → try_added o msg s other ≡ other
try_added_plain msg s none other p e = try_removed_plain msg s _ other p e
try_added_plain msg s (some cb) other p e = rw (p.0) (try_removed_plain msg s _ other p e)

-- After set_signal_callback has returned true for a callback, each signal of that interface and
-- name that the owner of the target sends from the object of the proxy is given to this callback,
-- which decides whether it is handled, and to no other. The interface is neither that of the
-- object manager nor that of the properties.
pub on_signal-set_signal_callback :
    (env : Env) (answers : ℕ → Bool) (msg : Signal) (cb : ℕ) (s : Proxy)
    → let r = set_signal_callback env msg.interface msg.name (some cb) s in
      let t = r.0 in
      r.1 ≡ true
      → IsPlain msg
      → str_eq msg.sender t.target_unique_name ≡ true
      → str_eq msg.path t.opath ≡ true
      → on_signal answers msg t ≡ (record t { calls = signal_called cb ∷ t.calls }, answers cb)
unfolding on_signal
on_signal-set_signal_callback env answers msg cb s ok p e f =
    let r = set_signal_callback env msg.interface msg.name (some cb) s in
    let h = (set_signal_callback-IsApplied env msg.interface msg.name (some cb) s).as_set ok in
    rw (e) (try_added_plain msg r.0 _ _ p f ∙ call_signal_found answers msg r.0 cb (rw (h) refl))

try_added_other :
    (msg : Signal) (added : ℕ) (s : Proxy) (other : Proxy × Bool)
    → is_object_manager "InterfacesAdded" s.iface_add_om_root msg ≡ true
    → is_own s.opath msg.added_path ≡ false
    → try_added (some added) msg s other ≡ other
try_added_other msg added s other h k = rw (h, k) refl

-- InterfacesAdded for another object, sent from the path of the object manager, is given to a signal callback although it does not come from the object of the proxy.
pub on_signal_other_path :
    (answers : ℕ → Bool) (msg : Signal) (added cb : ℕ) (s : Proxy)
    → str_eq msg.sender s.target_unique_name ≡ true
    → str_eq msg.path s.opath ≡ false
    → s.object_ifaces_added_cb ≡ some added
    → is_object_manager "InterfacesAdded" s.iface_add_om_root msg ≡ true
    → is_own s.opath msg.added_path ≡ false
    → most_specific msg.interface msg.name s.callbacks ≡ some cb
    → on_signal answers msg s ≡ (record s { calls = signal_called cb ∷ s.calls }, answers cb)
unfolding on_signal
on_signal_other_path answers msg added cb s e f g h k m = rw (e) (
    ap (λ o. try_added o msg s (call_signal answers msg s)) g
    ∙ try_added_other msg added s _ h k
    ∙ call_signal_found answers msg s cb m)

abbrev pub properties : String
properties = "org.freedesktop.DBus.Properties"

abbrev pub changed : String
changed = "PropertiesChanged"

same_rule :
    (owner opath : String)
    → signal_rule owner opath properties changed ≡ props_changed_rule owner opath
unfolding signal_rule props_changed_rule
same_rule owner opath = refl

remove_match_ok :
    (up : Bool) (reply : Reply) (rule : String) (f : Filter)
    → up ≡ true
    → reply ≡ success
    → (remove_match up reply rule f).1.value ≡ true
unfolding remove_match on_remove_reply
remove_match_ok up reply rule f e g =
    rw (e, g)
      (if_intro (λ (r : Filter × Retvalue Bool). r.1.value ≡ true) (contains rule f.match_rules)
        (λ _. refl) (λ _. refl))

-- A signal callback for PropertiesChanged has the very match rule of the properties-changed
-- callback: when the latter is removed, the former stays set and its rule is gone.
pub set_properties_changed_callback_shared :
    (env : Env) (old : ℕ) (s : Proxy)
    → is_empty s.target_unique_name ≡ false
    → s.properties_changed_cb ≡ some old
    → env.up ≡ true
    → env.remove_reply ≡ success
    → let r = set_properties_changed_callback env none s in
      (r.1 ≡ true)
      × (r.0.callbacks ≡ s.callbacks)
      × (contains (own_rule properties changed r.0) r.0.filter.match_rules ≡ false)
unfolding set_properties_changed_callback resolve change_properties
set_properties_changed_callback_shared env old s e f u a =
    let rule = props_changed_rule s.target_unique_name s.opath in
    let v = remove_match-IsDone env.up env.remove_reply rule s.filter in
    rw (e, f, same_rule s.target_unique_name s.opath)
      (refl, refl, v.as_wanted (remove_match_ok _ _ rule s.filter u a))
