-- ===== src/Names/Dispatch.antt =====
-- Which signal calls which callback.
use Prim.Native.String.{String}
use text.Mathlib.Text.{◌==◌ as str_eq}
use text.Mathlib.TextEquality.{eq_iff}
use libultrabus.Common.{
  ◌∷◌, ℕ, ◌≡◌, refl, Bool, true, false, not, ◌&&◌, Option, none, some, ◌⊎◌, inl, inr, if◌then◌else◌,
  if_intro, arith,
}
use libultrabus.Names.{
  Called, owner_changed, lost, acquired, Signal, Names, is_set, called, call_owner_changed,
  call_lost, call_acquired, on_signal_impl,
}

-- The call that a signal asks for: the callback is the one that is set for the name of the signal,
-- the arguments are those of the signal.
pub data IsFor (msg : Signal) (s : Names) : Called → Type 0 where
  for_changed :
      {cb : ℕ} {name old_owner new_owner : String}
      → str_eq msg.name "NameOwnerChanged" ≡ true
      → s.name_owner_changed_cb ≡ some cb
      → msg.args ≡ some (name, old_owner, new_owner)
      → IsFor msg s (owner_changed cb name old_owner new_owner)
  for_lost :
      {cb : ℕ} {name : String}
      → str_eq msg.name "NameLost" ≡ true
      → s.name_lost_cb ≡ some cb
      → msg.arg ≡ some name
      → IsFor msg s (lost cb name)
  for_acquired :
      {cb : ℕ} {name : String}
      → str_eq msg.name "NameAcquired" ≡ true
      → s.name_acquired_cb ≡ some cb
      → msg.arg ≡ some name
      → IsFor msg s (acquired cb name)

-- Not handled and nothing changed, or handled by exactly one call.
abbrev pub IsCalled : Signal → Names → Names × Bool → Type 0
IsCalled msg s r =
    (r ≡ (s, false))
    ⊎ (str_eq msg.sender s.unique_bus_name ≡ true)
      × ((c : Called) × IsFor msg s c × (r ≡ called c s))

module _ (msg : Signal) (s : Names) (from_bus : str_eq msg.sender s.unique_bus_name ≡ true) where
  call_owner_changed-IsCalled :
      (cb : Option ℕ) (args : Option (String × String × String))
      → str_eq msg.name "NameOwnerChanged" ≡ true
      → s.name_owner_changed_cb ≡ cb
      → msg.args ≡ args
      → IsCalled msg s (call_owner_changed cb args s)
  call_owner_changed-IsCalled none args e f g = inl refl
  call_owner_changed-IsCalled (some cb) none e f g = inl refl
  call_owner_changed-IsCalled (some cb) (some (name, old_owner, new_owner)) e f g =
      inr (from_bus, (_, for_changed e f g, refl))

  call_lost-IsCalled :
      (cb : Option ℕ) (arg : Option String)
      → str_eq msg.name "NameLost" ≡ true
      → s.name_lost_cb ≡ cb
      → msg.arg ≡ arg
      → IsCalled msg s (call_lost cb arg s)
  call_lost-IsCalled none arg e f g = inl refl
  call_lost-IsCalled (some cb) none e f g = inl refl
  call_lost-IsCalled (some cb) (some name) e f g = inr (from_bus, (_, for_lost e f g, refl))

  call_acquired-IsCalled :
      (cb : Option ℕ) (arg : Option String)
      → str_eq msg.name "NameAcquired" ≡ true
      → s.name_acquired_cb ≡ cb
      → msg.arg ≡ arg
      → IsCalled msg s (call_acquired cb arg s)
  call_acquired-IsCalled none arg e f g = inl refl
  call_acquired-IsCalled (some cb) none e f g = inl refl
  call_acquired-IsCalled (some cb) (some name) e f g = inr (from_bus, (_, for_acquired e f g, refl))

  dispatch-IsCalled : IsCalled msg s (
      if str_eq msg.name "NameOwnerChanged" && is_set s.name_owner_changed_cb
      then call_owner_changed s.name_owner_changed_cb msg.args s
      else (if str_eq msg.name "NameLost" && is_set s.name_lost_cb
          then call_lost s.name_lost_cb msg.arg s
          else (if str_eq msg.name "NameAcquired" && is_set s.name_acquired_cb
              then call_acquired s.name_acquired_cb msg.arg s
              else (s, false))))
  dispatch-IsCalled =
      if_intro (IsCalled msg s)
        (str_eq msg.name "NameOwnerChanged" && is_set s.name_owner_changed_cb)
        (λ e. call_owner_changed-IsCalled _ _ (ground arith) refl refl)
        (λ _.
          if_intro (IsCalled msg s) (str_eq msg.name "NameLost" && is_set s.name_lost_cb)
            (λ e. call_lost-IsCalled _ _ (ground arith) refl refl)
            (λ _.
              if_intro (IsCalled msg s)
                (str_eq msg.name "NameAcquired" && is_set s.name_acquired_cb)
                (λ e. call_acquired-IsCalled _ _ (ground arith) refl refl) (λ _. inl refl)))

pub on_signal_impl-IsCalled : (msg : Signal) (s : Names) → IsCalled msg s (on_signal_impl msg s)
unfolding on_signal_impl
on_signal_impl-IsCalled msg s =
    if_intro (IsCalled msg s) (not (str_eq msg.sender s.unique_bus_name)) (λ _. inl refl)
      (λ e. dispatch-IsCalled msg s (ground arith))

lost_differs :
    (name : String) → str_eq name "NameLost" ≡ true → str_eq name "NameOwnerChanged" ≡ false
lost_differs name e = rw ((eq_iff name "NameLost").0 e) refl

acquired_differs :
    (name : String)
    → str_eq name "NameAcquired" ≡ true
    → (str_eq name "NameOwnerChanged" ≡ false) × (str_eq name "NameLost" ≡ false)
acquired_differs name e = rw ((eq_iff name "NameAcquired").0 e) (refl, refl)

called_for :
    (msg : Signal) (s : Names) (c : Called)
    → str_eq msg.sender s.unique_bus_name ≡ true
    → IsFor msg s c
    → on_signal_impl msg s ≡ (record s { calls = c ∷ s.calls }, true)
unfolding on_signal_impl
called_for msg s _ e (for_changed n f g) = rw (e, n, f, g) refl
called_for msg s _ e (for_lost n f g) = rw (e, lost_differs msg.name n, n, f, g) refl
called_for msg s _ e (for_acquired n f g) =
    let (p, q) = acquired_differs msg.name n in rw (e, p, q, n, f, g) refl

pub record IsHandled (msg : Signal) (s : Names) (r : Names × Bool) : Type 0 where
  pub handled :
      (c : Called)
      → str_eq msg.sender s.unique_bus_name ≡ true
      → IsFor msg s c
      → r ≡ (record s { calls = c ∷ s.calls }, true)
  pub ignored :
      ((c : Called) → str_eq msg.sender s.unique_bus_name ≡ true → ¬ IsFor msg s c) → r ≡ (s, false)

-- A signal whose sender is the owner of the bus name, for whose name a callback is set and whose
-- arguments are as expected, is handled by exactly one call, of this callback with these arguments.
-- Any other signal is not handled, and nothing changes.
pub on_signal_impl-IsHandled : (msg : Signal) (s : Names) → IsHandled msg s (on_signal_impl msg s)
on_signal_impl-IsHandled msg s = record {
  handled = λ c e f. called_for msg s c e f;
  ignored = λ no. elim (on_signal_impl-IsCalled msg s) [
    | inl e ↦ e
    | inr (e, (c, f, g)) ↦ absurd (no c e f)
  ];
}
