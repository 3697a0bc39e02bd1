-- ===== src/Names/Rules.antt =====
-- The match rules of the name callbacks.
use Prim.Native.String.{String}
use text.Mathlib.Text.{◌==◌ as str_eq}
use text.Mathlib.TextPositions.{eq_refl}
use libultrabus.Common.{ℕ, ◌≡◌, refl, Bool, true, false, Option, none, some, arith, ◌∙◌}
use libultrabus.Matches.{Filter, add_match_async, remove_match_async}
use libultrabus.Matches.Rules.{contains, contains-emplace, contains-erase}
use libultrabus.Names.{
  Names, change_rule, owner_changed_rule, lost_rule, acquired_rule, is_set,
  set_name_owner_changed_cb, set_name_lost_cb, set_name_acquired_cb,
}

-- What a change of a callback does to the rules if everything is sent.
pub record IsChanged (rule : String) (callback : Option ℕ) (f : Filter) (r : Filter × Bool)
    : Type 0 where
  pub ok : r.1 ≡ true
  pub own : contains rule r.0.match_rules ≡ is_set callback
  pub others :
      (q : String) → str_eq rule q ≡ false → contains q r.0.match_rules ≡ contains q f.match_rules

pub change_rule-IsChanged :
    (rule : String) (old callback : Option ℕ) (f : Filter)
    → contains rule f.match_rules ≡ is_set old
    → IsChanged rule callback f (change_rule true true rule old callback f)
unfolding change_rule add_match_async remove_match_async
change_rule-IsChanged rule none none f e = record { ok = refl; own = e; others = λ q h. refl }
change_rule-IsChanged rule (some o) (some c) f e = record {
  ok = refl;
  own = e;
  others = λ q h. refl;
}
change_rule-IsChanged rule none (some c) f e = rw (e) (record {
  ok = refl;
  own = let h = contains-emplace rule rule f.match_rules in let k = eq_refl rule in ground arith;
  others = λ q h. let k = contains-emplace rule q f.match_rules in ground arith;
})
change_rule-IsChanged rule (some o) none f e = rw (e) (record {
  ok = refl;
  own = let h = contains-erase rule rule f.match_rules in let k = eq_refl rule in ground arith;
  others = λ q h. let k = contains-erase rule q f.match_rules in ground arith;
})

-- The filter has the rule of a callback exactly while the callback is set.
pub record IsListening (s : Names) : Type 0 where
  pub for_changed :
      contains owner_changed_rule s.filter.match_rules ≡ is_set s.name_owner_changed_cb
  pub for_lost : contains lost_rule s.filter.match_rules ≡ is_set s.name_lost_cb
  pub for_acquired : contains acquired_rule s.filter.match_rules ≡ is_set s.name_acquired_cb

pub set_name_owner_changed_cb-IsListening :
    (conn_up : Bool) (callback : Option ℕ) (s : Names)
    → IsListening s
    → IsListening (set_name_owner_changed_cb conn_up true callback s).0
unfolding set_name_owner_changed_cb
set_name_owner_changed_cb-IsListening false callback s v = v
set_name_owner_changed_cb-IsListening true callback s v =
    let h = change_rule-IsChanged owner_changed_rule _ callback s.filter v.for_changed in
    let e = h.ok in
    record {
      for_changed = rw (e) h.own;
      for_lost = h.others lost_rule refl ∙ v.for_lost;
      for_acquired = h.others acquired_rule refl ∙ v.for_acquired;
    }

pub set_name_lost_cb-IsListening :
    (conn_up : Bool) (callback : Option ℕ) (s : Names)
    → IsListening s
    → IsListening (set_name_lost_cb conn_up true callback s).0
unfolding set_name_lost_cb
set_name_lost_cb-IsListening false callback s v = v
set_name_lost_cb-IsListening true callback s v =
    let h = change_rule-IsChanged lost_rule _ callback s.filter v.for_lost in
    let e = h.ok in
    record {
      for_changed = h.others owner_changed_rule refl ∙ v.for_changed;
      for_lost = rw (e) h.own;
      for_acquired = h.others acquired_rule refl ∙ v.for_acquired;
    }

pub set_name_acquired_cb-IsListening :
    (conn_up : Bool) (callback : Option ℕ) (s : Names)
    → IsListening s
    → IsListening (set_name_acquired_cb conn_up true callback s).0
unfolding set_name_acquired_cb
set_name_acquired_cb-IsListening false callback s v = v
set_name_acquired_cb-IsListening true callback s v =
    let h = change_rule-IsChanged acquired_rule _ callback s.filter v.for_acquired in
    let e = h.ok in
    record {
      for_changed = h.others owner_changed_rule refl ∙ v.for_changed;
      for_lost = h.others lost_rule refl ∙ v.for_lost;
      for_acquired = rw (e) h.own;
    }
