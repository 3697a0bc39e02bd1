-- ===== src/Tests/Subscribers.antt =====
-- Callbacks of the standard interfaces at concrete inputs.
use Prim.Native.String.{String}
use text.Mathlib.Text.{◌==◌ as str_eq}
use text.Mathlib.TextEquality.{eq_iff}
use libultrabus.Common.{◌≡◌, refl, sym, subst, true, some, none, [], ◌∷◌}
use libultrabus.Common.Quotes.{HasNoQuote}
use libultrabus.Common.Pairs.{find_callback, put_callback}
use libultrabus.Matches.Rules.{contains}
use libultrabus.Retvalue.{of_value}
use libultrabus.Matches.{new_filter, success, add_match}
use libultrabus.Subscriptions.{
  is_unique, Env, Signal, Properties, ObjectManager, set_properties_changed_callback,
  set_interfaces_added_callback, set_interfaces_removed_callback,
}
use libultrabus.Subscriptions.Covered.{
  IsPlain, IsCovered, new_manager, Reach, begin, next, set_added, set_removed, Reach-IsCovered,
}
use libultrabus.Subscriptions.Delivered.{IsDelivered, set_properties_changed_callback-IsDelivered}

abbrev env : Env
env = record {
  valid_name = λ s. str_eq s ":1.7";
  valid_path = λ s. str_eq s "/a";
  owner = of_value ":1.9";
  up = true;
  add_reply = success;
  remove_reply = success;
}

name_plain : (s : String) → str_eq s ":1.7" ≡ true → HasNoQuote s
name_plain s h = subst HasNoQuote (sym ((eq_iff s ":1.7").0 h)) (refl, (refl, (refl, (refl, tt))))

path_plain : (s : String) → str_eq s "/a" ≡ true → HasNoQuote s
path_plain s h = subst HasNoQuote (sym ((eq_iff s "/a").0 h)) (refl, (refl, tt))

env-IsPlain : IsPlain env
env-IsPlain = record {
  plain_name = name_plain;
  plain_path = path_plain;
  plain_owner = (refl, (refl, (refl, (refl, tt))));
}

abbrev with_added : ObjectManager
with_added = (set_interfaces_added_callback env ":1.7" "/a" (some 1) new_manager).0

abbrev with_both : ObjectManager
with_both = (set_interfaces_removed_callback env ":1.7" "/a" (some 2) with_added).0

both_reached : Reach with_both
both_reached =
    next (next begin (set_added env ":1.7" "/a" (some 1) new_manager env-IsPlain))
      (set_removed env ":1.7" "/a" (some 2) with_added env-IsPlain)

both_run : find_callback ":1.7" "/a" with_both.iface_added ≡ some 1
unfolding set_interfaces_added_callback set_interfaces_removed_callback add_match find_callback
    put_callback contains
both_run = refl

Reach-IsCovered_example : IsCovered with_both
Reach-IsCovered_example = Reach-IsCovered both_reached

abbrev unused : Properties
unused = record { props_changed = record { filter = new_filter; entries = [] }; calls = [] }

abbrev volume_changed : Signal
volume_changed = record {
  interface = "org.freedesktop.DBus.Properties";
  name = "PropertiesChanged";
  sender = ":1.7";
  path = "/a";
  changed = some ("org.example.Player", ("Volume", 3) ∷ [], []);
  added = none;
  removed = none;
}

set_properties_changed_callback-IsDelivered_example :
    IsDelivered ":1.7" "/a"
      (some 5)
      unused
      (set_properties_changed_callback env ":1.7" "/a" (some 5) unused)
      volume_changed
unfolding is_unique
set_properties_changed_callback-IsDelivered_example =
    set_properties_changed_callback-IsDelivered env ":1.7" "/a" (some 5) unused volume_changed
