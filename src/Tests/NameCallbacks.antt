-- ===== src/Tests/NameCallbacks.antt =====
-- Name callbacks at concrete inputs.
use libultrabus.Common.{◌≡◌, refl, true, some, none}
use libultrabus.Matches.{add_match_async}
use libultrabus.Matches.Rules.{contains}
use libultrabus.Names.{
  Names, Signal, no_names, set_name_lost_cb, on_signal, on_signal_impl, on_name_owner, change_rule,
}
use libultrabus.Names.Rules.{IsListening}
use libultrabus.Names.Session.{Reach, start, later, set_lost, signals, owned, Reach-IsListening}
use libultrabus.Names.Dispatch.{IsHandled, on_signal_impl-IsHandled}

abbrev name_lost : Signal
name_lost = record {
  interface = "org.freedesktop.DBus";
  path = "/org/freedesktop/DBus";
  sender = "org.freedesktop.DBus";
  name = "NameLost";
  arg = some "se.ultramarin";
  args = none;
}

abbrev listening : Names
listening = (set_name_lost_cb true true (some 3) no_names).0

listening-Reach : Reach listening
listening-Reach = later start (set_lost true (some 3))

listening_cb : listening.name_lost_cb ≡ some 3
unfolding set_name_lost_cb change_rule add_match_async contains
listening_cb = refl

listening_unnamed : listening.unique_bus_name ≡ ""
unfolding set_name_lost_cb
listening_unnamed = refl

listening-IsListening : IsListening listening
listening-IsListening = Reach-IsListening listening-Reach

Reach-IsListening_example :
    IsListening
      (on_name_owner "org.freedesktop.DBus" name_lost (on_signal true name_lost listening).0)
Reach-IsListening_example = Reach-IsListening (
    later (later listening-Reach (signals true name_lost)) (owned "org.freedesktop.DBus" name_lost))

-- The owner of the bus name is known.
abbrev owned_name : Names
owned_name = record listening { unique_bus_name = "org.freedesktop.DBus" }

on_signal_impl-IsHandled_example :
    IsHandled name_lost owned_name (on_signal_impl name_lost owned_name)
on_signal_impl-IsHandled_example = on_signal_impl-IsHandled name_lost owned_name

name_lost_called : (on_signal_impl name_lost owned_name).1 ≡ true
unfolding on_signal_impl set_name_lost_cb change_rule add_match_async contains
name_lost_called = refl
