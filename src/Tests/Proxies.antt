-- ===== src/Tests/Proxies.antt =====
-- An object proxy at concrete inputs.
use text.Mathlib.Text.{◌==◌ as str_eq}
use libultrabus.Common.{ℕ, ◌≡◌, refl, true, false, some, none, [], ◌∷◌}
use libultrabus.Retvalue.{of_value}
use libultrabus.Matches.{new_filter, success, add_match, remove_match, on_add_reply}
use libultrabus.Matches.Rules.{contains}
use libultrabus.Common.Pairs.{find_callback, put_callback, erase_callback}
use libultrabus.Proxy.{
  Proxy, Env, Signal, signal_called, set_signal_callback, resolve, change_callback, on_signal,
}
use libultrabus.Proxy.Clearing.{clear_signal_callbacks, remove_rules}
use libultrabus.Proxy.Ifaces.{added_rule, removed_rule}
use libultrabus.Proxy.Setting.{IsApplied, set_signal_callback-IsApplied}
use libultrabus.Proxy.Routing.{on_signal-set_signal_callback}

abbrev proxy : Proxy
proxy = record {
  filter = new_filter;
  target_unique_name = "";
  opath = "/a";
  iface_add_om_root = "/";
  iface_del_om_root = "";
  object_ifaces_added_cb = some 5;
  object_ifaces_removed_cb = none;
  properties_changed_cb = some 6;
  callbacks = record { first = ""; second = ""; callback = 9 } ∷ [];
  calls = [];
}

abbrev willing : Env
willing = record {
  valid_interface = λ s. str_eq s "se.A";
  valid_member = λ s. str_eq s "Ping";
  owner = of_value ":1.4";
  up = true;
  add_reply = success;
  remove_reply = success;
}

set_signal_callback-IsApplied_example :
    IsApplied "se.A" "Ping"
      (some 7)
      proxy
      (set_signal_callback willing "se.A" "Ping" (some 7) proxy)
set_signal_callback-IsApplied_example =
    set_signal_callback-IsApplied willing "se.A" "Ping" (some 7) proxy

abbrev ping : Signal
ping = record {
  sender = ":1.4";
  interface = "se.A";
  name = "Ping";
  path = "/a";
  added_path = none;
  removed_path = none;
  changed_ok = false;
}

abbrev with_ping : Proxy
with_ping = (set_signal_callback willing "se.A" "Ping" (some 7) proxy).0

with_ping_ok : (set_signal_callback willing "se.A" "Ping" (some 7) proxy).1 ≡ true
unfolding set_signal_callback resolve change_callback find_callback add_match on_add_reply contains
with_ping_ok = refl

with_ping_owner : str_eq ":1.4" with_ping.target_unique_name ≡ true
unfolding set_signal_callback resolve change_callback find_callback
with_ping_owner = refl

with_ping_path : str_eq "/a" with_ping.opath ≡ true
unfolding set_signal_callback resolve change_callback find_callback
with_ping_path = refl

on_signal-set_signal_callback_example :
    on_signal (λ cb. true) ping with_ping
    ≡ (record with_ping { calls = signal_called 7 ∷ with_ping.calls }, true)
on_signal-set_signal_callback_example =
    on_signal-set_signal_callback willing (λ cb. true) ping 7 proxy with_ping_ok (refl, refl)
      with_ping_owner with_ping_path

abbrev known : Proxy
known = record proxy { target_unique_name = ":1.4" }

-- The object manager at "/" announces the interfaces of "/b".
abbrev announced : Signal
announced = record {
  sender = ":1.4";
  interface = "org.freedesktop.DBus.ObjectManager";
  name = "InterfacesAdded";
  path = "/";
  added_path = some "/b";
  removed_path = none;
  changed_ok = false;
}

-- The callback 5 is set for the object manager at "/".
abbrev rooted : Proxy
rooted = record known { filter = record { match_rules = added_rule known "/" ∷ []; log = [] } }

rooted_listed :
    (cb : ℕ)
    → rooted.object_ifaces_added_cb ≡ some cb
    → contains (added_rule rooted "/") rooted.filter.match_rules ≡ true
unfolding contains
rooted_listed cb e = refl

unremoved :
    (cb : ℕ)
    → rooted.object_ifaces_removed_cb ≡ some cb
    → contains (removed_rule rooted "") rooted.filter.match_rules ≡ true
unremoved cb e = cc e

-- With the connection closed the callbacks are gone and the match rule stays.
rule_left :
    let s = (set_signal_callback willing "se.A" "Ping" (some 7) proxy).0 in
    let t = clear_signal_callbacks (record { up = λ r. false; replies = λ r. success }) s in
    (t.callbacks ≡ []) × (t.filter.match_rules ≡ s.filter.match_rules)
unfolding set_signal_callback resolve change_callback find_callback put_callback erase_callback
    clear_signal_callbacks remove_rules remove_match add_match contains
rule_left = (refl, refl)
