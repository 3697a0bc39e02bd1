-- ===== src/Names/Session.antt =====
-- The name callbacks over any sequence of calls and signals.
use Prim.Native.String.{String}
use libultrabus.Common.{
  ℕ, ◌≡◌, refl, ◌∷◌, if◌then◌else◌, Bool, true, false, Option, ap, sym, ◌∙◌, inl, inr, subst,
  if_intro, not, ◌&&◌, ◌||◌,
}
use text.Mathlib.Text.{◌==◌ as str_eq}
use libultrabus.Matches.Rules.{contains}
use libultrabus.Names.{
  Called, Signal, Names, no_names, called, is_set, owner_changed_rule, lost_rule, acquired_rule,
  set_name_owner_changed_cb, set_name_lost_cb, set_name_acquired_cb, on_signal_impl, on_signal,
  on_name_owner,
}
use libultrabus.Names.Rules.{
  IsListening, set_name_owner_changed_cb-IsListening, set_name_lost_cb-IsListening,
  set_name_acquired_cb-IsListening,
}
use libultrabus.Names.Dispatch.{IsCalled, on_signal_impl-IsCalled}

pub data Step (s : Names) : Names → Type 0 where
  set_changed :
      (conn_up : Bool) (callback : Option ℕ)
      → Step s (set_name_owner_changed_cb conn_up true callback s).0
  set_lost :
      (conn_up : Bool) (callback : Option ℕ) → Step s (set_name_lost_cb conn_up true callback s).0
  set_acquired :
      (conn_up : Bool) (callback : Option ℕ)
      → Step s (set_name_acquired_cb conn_up true callback s).0
  signals : (starts : Bool) (msg : Signal) → Step s (on_signal starts msg s).0
  owned : (owner : String) (msg : Signal) → Step s (on_name_owner owner msg s)

pub data Reach : Names → Type 0 where
  start : Reach no_names
  later : {s t : Names} → Reach s → Step s t → Reach t

-- Nothing but the calls, the signals that wait and the name of the bus differ.
record IsSameSetting (s t : Names) : Type 0 where
  same_filter : t.filter ≡ s.filter
  same_changed : t.name_owner_changed_cb ≡ s.name_owner_changed_cb
  same_lost : t.name_lost_cb ≡ s.name_lost_cb
  same_acquired : t.name_acquired_cb ≡ s.name_acquired_cb

same-IsListening : {s t : Names} → IsSameSetting s t → IsListening s → IsListening t
same-IsListening {s} {t} h v = record {
  for_changed =
      ap (λ f. contains owner_changed_rule f.match_rules) h.same_filter
      ∙ v.for_changed
      ∙ sym (ap is_set h.same_changed);
  for_lost =
      ap (λ f. contains lost_rule f.match_rules) h.same_filter
      ∙ v.for_lost
      ∙ sym (ap is_set h.same_lost);
  for_acquired =
      ap (λ f. contains acquired_rule f.match_rules) h.same_filter
      ∙ v.for_acquired
      ∙ sym (ap is_set h.same_acquired);
}

same_setting : (s : Names) → IsSameSetting s s
same_setting s = record {
  same_filter = refl;
  same_changed = refl;
  same_lost = refl;
  same_acquired = refl;
}

called-IsSameSetting : (c : Called) (s : Names) → IsSameSetting s (called c s).0
called-IsSameSetting c s = record {
  same_filter = refl;
  same_changed = refl;
  same_lost = refl;
  same_acquired = refl;
}

IsCalled-IsSameSetting :
    (msg : Signal) (s : Names) (r : Names × Bool) → IsCalled msg s r → IsSameSetting s r.0
IsCalled-IsSameSetting msg s r (inl e) =
    subst (λ (x : Names × Bool). IsSameSetting s x.0) (sym e) (same_setting s)
IsCalled-IsSameSetting msg s r (inr (e, (c, p, q))) =
    subst (λ (x : Names × Bool). IsSameSetting s x.0) (sym q) (called-IsSameSetting c s)

on_signal_impl-IsSameSetting : (msg : Signal) (s : Names) → IsSameSetting s (on_signal_impl msg s).0
on_signal_impl-IsSameSetting msg s = IsCalled-IsSameSetting msg s _ (on_signal_impl-IsCalled msg s)

asked-IsSameSetting :
    (starts : Bool) (msg : Signal) (s : Names)
    → IsSameSetting s (if starts then record s { asked = msg ∷ s.asked } else s)
asked-IsSameSetting true msg s = record {
  same_filter = refl;
  same_changed = refl;
  same_lost = refl;
  same_acquired = refl;
}
asked-IsSameSetting false msg s = same_setting s

on_signal-IsSameSetting :
    (starts : Bool) (msg : Signal) (s : Names) → IsSameSetting s (on_signal starts msg s).0
unfolding on_signal
on_signal-IsSameSetting starts msg s =
    let P = λ (r : Names × Bool). IsSameSetting s r.0 in
    if_intro P
      (not (str_eq msg.interface "org.freedesktop.DBus")
        || not (str_eq msg.path "/org/freedesktop/DBus"))
      {x = (s, false)} (λ _. same_setting s)
      (λ _.
        if_intro P
          (not (is_set s.name_owner_changed_cb)
            && (not (is_set s.name_lost_cb) && not (is_set s.name_acquired_cb)))
          {x = (s, false)} (λ _. same_setting s)
          (λ _.
            if_intro P (str_eq s.unique_bus_name "")
              {x = (if starts then record s { asked = msg ∷ s.asked } else s, starts)}
              {y = on_signal_impl msg s} (λ _. asked-IsSameSetting starts msg s)
              (λ _. on_signal_impl-IsSameSetting msg s)))

on_name_owner-IsListening :
    (owner : String) (msg : Signal) (s : Names)
    → IsListening s
    → IsListening (on_name_owner owner msg s)
unfolding on_name_owner
on_name_owner-IsListening owner msg s v =
    same-IsListening (on_signal_impl-IsSameSetting msg (record s { unique_bus_name = owner }))
      (record { for_changed = v.for_changed; for_lost = v.for_lost; for_acquired = v.for_acquired })

Step-IsListening : {s t : Names} → Step s t → IsListening s → IsListening t
Step-IsListening {s} (set_changed u cb) v = set_name_owner_changed_cb-IsListening u cb s v
Step-IsListening {s} (set_lost u cb) v = set_name_lost_cb-IsListening u cb s v
Step-IsListening {s} (set_acquired u cb) v = set_name_acquired_cb-IsListening u cb s v
Step-IsListening {s} (signals starts msg) v =
    same-IsListening (on_signal-IsSameSetting starts msg s) v
Step-IsListening {s} (owned owner msg) v = on_name_owner-IsListening owner msg s v

-- After any sequence of calls of the three setters, of signals and of replies to get_name_owner,
-- the filter has the match rule of each name callback exactly while that callback is set. What the
-- setters send is taken to be sent, the connection to stay open between the calls that find it
-- open, and the user to leave these three rules alone.
pub Reach-IsListening : {s : Names} → Reach s → IsListening s
unfolding contains
Reach-IsListening start = record { for_changed = refl; for_lost = refl; for_acquired = refl }
Reach-IsListening (later r st) = Step-IsListening st (Reach-IsListening r)
