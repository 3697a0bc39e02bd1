-- ===== src/Subscriptions/Delivered.antt =====
-- Which callback a PropertiesChanged signal is given to after a change.
use Prim.Native.String.{String}
use text.Mathlib.Text.{◌==◌ as str_eq}
use libultrabus.Common.{
  ℕ, ◌≡◌, refl, Bool, true, false, ◌&&◌, Option, some, none, List, ◌∷◌, ap, ◌∙◌, Bool-cases, inl,
  inr,
}
use libultrabus.Common.Pairs.{find_callback}
use libultrabus.Retvalue.{Retvalue}
use libultrabus.Methods.Replies.{set_of}
use libultrabus.Subscriptions.{
  Env, Signal, Properties, properties_rule, set_properties_changed_callback, call_changed,
  on_properties_signal,
}
use libultrabus.Subscriptions.Changes.{kept_name, set_callback-IsChanged}

abbrev pub is_changed : Signal → Bool
is_changed msg =
    str_eq msg.interface "org.freedesktop.DBus.Properties" && str_eq msg.name "PropertiesChanged"

-- The calls that a signal adds depend on the callback for its sender and path alone.
calls_added :
    (found : Option ℕ) (args : Option (String × List (String × ℕ) × List String)) (s u : Properties)
    → s.calls ≡ u.calls
    → (call_changed found args s).calls ≡ (call_changed found args u).calls
calls_added none args s u e = e
calls_added (some cb) none s u e = e
calls_added (some cb) (some (i, ps, names)) s u e = rw e refl

same_calls :
    (msg : Signal) (s u : Properties)
    → s.calls ≡ u.calls
    → find_callback msg.sender msg.path s.props_changed.entries
      ≡ find_callback msg.sender msg.path u.props_changed.entries
    → (on_properties_signal msg s).calls ≡ (on_properties_signal msg u).calls
unfolding on_properties_signal
same_calls msg s u e f = elim (Bool-cases (is_changed msg)) [
  | inl h ↦ rw (h, f) (calls_added _ msg.changed s u e)
  | inr h ↦ rw h e
]

found_call :
    (msg : Signal) (s : Properties) (callback : Option ℕ)
    → is_changed msg ≡ true
    → find_callback msg.sender msg.path s.props_changed.entries ≡ callback
    → on_properties_signal msg s ≡ call_changed callback msg.changed s
unfolding on_properties_signal
found_call msg s callback h f = rw (h, f) refl

unread_call :
    (msg : Signal) (s : Properties) (found : Option ℕ)
    → find_callback msg.sender msg.path s.props_changed.entries ≡ found
    → msg.changed ≡ none
    → (on_properties_signal msg s).calls ≡ s.calls
unfolding on_properties_signal
unread_call msg s none e g = elim (Bool-cases (is_changed msg)) [
  | inl h ↦ rw (h, e) refl
  | inr h ↦ rw h refl
]
unread_call msg s (some cb) e g = elim (Bool-cases (is_changed msg)) [
  | inl h ↦ rw (h, e, g) refl
  | inr h ↦ rw h refl
]

silent_call :
    (msg : Signal) (s : Properties)
    → find_callback msg.sender msg.path s.props_changed.entries ≡ none
    → (on_properties_signal msg s).calls ≡ s.calls
unfolding on_properties_signal
silent_call msg s e = elim (Bool-cases (is_changed msg)) [
  | inl h ↦ rw (h, e) refl
  | inr h ↦ rw h refl
]

-- What a signal does after a change.
pub record IsDelivered (name opath : String) (callback : Option ℕ) (s : Properties)
    (r : Properties × Retvalue Bool) (msg : Signal) : Type 0 where
  pub done :
      r.1.value ≡ true
      → is_changed msg ≡ true
      → msg.sender ≡ name
      → msg.path ≡ opath
      → (cb : ℕ) (interface : String) (properties : List (String × ℕ)) (names : List String)
      → callback ≡ some cb
      → msg.changed ≡ some (interface, properties, names)
      → (on_properties_signal msg r.0).calls
        ≡ record {
          callback = cb;
          interface = interface;
          properties = properties;
          invalidated = set_of names;
        }
          ∷ s.calls
  pub unset :
      r.1.value ≡ true
      → callback ≡ none
      → msg.sender ≡ name
      → msg.path ≡ opath
      → (on_properties_signal msg r.0).calls ≡ s.calls
  pub unread : msg.changed ≡ none → (on_properties_signal msg r.0).calls ≡ s.calls
  pub failed :
      r.1.value ≡ false
      → msg.sender ≡ name
      → msg.path ≡ opath
      → (on_properties_signal msg r.0).calls ≡ (on_properties_signal msg s).calls
  pub others :
      (str_eq name msg.sender && str_eq opath msg.path) ≡ false
      → (on_properties_signal msg r.0).calls ≡ (on_properties_signal msg s).calls
  pub silent : r.0.calls ≡ s.calls

-- Whatever libdbus and the bus answer: after set_properties_changed_callback has returned true, a
-- PropertiesChanged signal from the connection and the path whose arguments are as expected calls
-- this callback once, with the interface, the properties and the set of names of the signal, and
-- calls nothing else; if no callback was given, a signal from there calls none. After it has returned
-- false such a signal calls what it called before, and so does always a signal from another
-- connection or path. A signal whose arguments are not as expected calls none, nor does the setter.
pub set_properties_changed_callback-IsDelivered :
    (env : Env) (bus_name opath : String) (callback : Option ℕ) (s : Properties) (msg : Signal)
    → IsDelivered
        (kept_name env bus_name)
        opath
        callback
        s
        (set_properties_changed_callback env bus_name opath callback s)
        msg
unfolding set_properties_changed_callback
set_properties_changed_callback-IsDelivered env bus_name opath callback s msg =
    let v = set_callback-IsChanged env properties_rule bus_name opath callback s.props_changed in
    record {
      done = λ h c a b cb i ps names f g.
          ap (λ u. u.calls) (found_call msg _ callback c (rw (a, b) (v.as_set h))) ∙ rw (f, g) refl;
      unset = λ h f a b. silent_call msg _ (rw (a, b) (v.as_set h) ∙ f);
      unread = λ g. unread_call msg _ _ refl g;
      failed = λ h a b. same_calls msg _ s refl (rw (a, b) (v.kept h));
      others = λ d. same_calls msg _ s refl (v.others msg.sender msg.path d);
      silent = refl;
    }
