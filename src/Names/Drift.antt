-- ===== src/Names/Drift.antt =====
-- When a name callback and its match rule come apart, and when a signal counts as handled that no
-- callback is called for.
use Prim.Native.String.{String}
use text.Mathlib.Text.{◌==◌ as str_eq}
use libultrabus.Common.{ℕ, ◌≡◌, refl, Bool, true, false, not, ◌&&◌, none, some, ◌∷◌, arith, ap, ◌∙◌}
use text.Mathlib.TextPositions.{eq_refl}
use libultrabus.Matches.{add_match_async, remove_match_async, held}
use libultrabus.Matches.Rules.{contains, contains-erase}
use libultrabus.Names.{
  Signal, Names, is_set, lost_rule, change_rule, set_name_lost_cb, on_signal, on_signal_impl,
  on_name_owner, drop_names,
}
use libultrabus.Names.Rules.{IsListening}

-- A name-lost callback whose removal cannot be sent stays set, but the filter has forgotten its
-- rule; to set it again does not bring the rule back.
pub set_name_lost_cb_unsent :
    (cb : ℕ) (s : Names)
    → s.name_lost_cb ≡ some cb
    → IsListening s
    → let r = set_name_lost_cb true false none s in
      (r.1 ≡ false)
      × (r.0.name_lost_cb ≡ some cb)
      × (contains lost_rule r.0.filter.match_rules ≡ false)
      × (set_name_lost_cb true true (some cb) r.0 ≡ (r.0, true))
unfolding set_name_lost_cb change_rule remove_match_async
set_name_lost_cb_unsent cb s e v =
    let h = v.for_lost ∙ ap is_set e in
    let k = contains-erase lost_rule lost_rule s.filter.match_rules in
    rw (e, h) (refl, refl, k, refl)

-- A callback that was set when the connection was closed: setting one on the next connection
-- reports success although the bus does not hold its rule, and asks the bus for nothing.
pub set_name_lost_cb-drop_names :
    (sends : Bool) (cb : ℕ) (s : Names)
    → is_set s.name_lost_cb ≡ true
    → IsListening s
    → let t = drop_names s in
      let r = set_name_lost_cb true sends (some cb) t in
      (r.1 ≡ true)
      × (r.0.name_lost_cb ≡ some cb)
      × (r.0.filter.log ≡ t.filter.log)
      × (held lost_rule r.0.filter.log ≡ 0)
unfolding set_name_lost_cb change_rule add_match_async drop_names held
set_name_lost_cb-drop_names sends cb s e v =
    let h = v.for_lost ∙ e in rw (h) (refl, refl, refl, refl)

some_set : (a b c : Bool) → b ≡ true → (not a && (not b && not c)) ≡ false
some_set a b c e = ground arith

on_signal_asks :
    (msg : Signal) (s : Names)
    → str_eq msg.interface "org.freedesktop.DBus" ≡ true
    → str_eq msg.path "/org/freedesktop/DBus" ≡ true
    → is_set s.name_lost_cb ≡ true
    → str_eq s.unique_bus_name "" ≡ true
    → on_signal true msg s ≡ (record s { asked = msg ∷ s.asked }, true)
unfolding on_signal
on_signal_asks msg s e f g h =
    let k = some_set (is_set s.name_owner_changed_cb) _ (is_set s.name_acquired_cb) g in
    rw (e, f, k, h) refl

on_name_owner_other :
    (owner : String) (msg : Signal) (s : Names)
    → str_eq msg.sender owner ≡ false
    → on_name_owner owner msg s ≡ record s { unique_bus_name = owner }
unfolding on_name_owner on_signal_impl
on_name_owner_other owner msg s e = rw (e, on_name_owner, on_signal_impl) refl

-- While the name of the bus is not known, on_signal reports a signal of the bus as handled as soon
-- as it has asked for the name, also if the sender turns out to be another, and no callback is
-- then called.
pub on_signal_unowned :
    (owner : String) (msg : Signal) (s : Names)
    → str_eq msg.interface "org.freedesktop.DBus" ≡ true
    → str_eq msg.path "/org/freedesktop/DBus" ≡ true
    → is_set s.name_lost_cb ≡ true
    → s.unique_bus_name ≡ ""
    → str_eq msg.sender owner ≡ false
    → let r = on_signal true msg s in (r.1 ≡ true) × ((on_name_owner owner msg r.0).calls ≡ s.calls)
on_signal_unowned owner msg s e f g h k =
    let u = on_signal_asks msg s e f g (ap (λ n. str_eq n "") h ∙ eq_refl "") in
    rw (u) (refl, ap (λ t. t.calls) (on_name_owner_other owner msg _ k))
