-- ===== src/Subscriptions/Covered.antt =====
-- The match rules of an object manager's filter against its callbacks.
use Prim.Native.String.{String}
use text.Mathlib.Text.{◌==◌ as str_eq}
use text.Mathlib.TextEquality.{eq_iff}
use libultrabus.Common.{
  ℕ, ◌≡◌, refl, sym, ap, ◌∙◌, Bool, true, false, not, ◌&&◌, ◌⊎◌, inl, inr, Option, some, none, List,
  [], if_intro, Bool-cases, arith,
}
use libultrabus.Common.Quotes.{HasNoQuote}
use libultrabus.Common.Pairs.{find_callback}
use libultrabus.Retvalue.{Retvalue}
use libultrabus.Matches.{new_filter}
use libultrabus.Matches.Rules.{contains}
use libultrabus.Subscriptions.{
  Env, Table, Signal, set_callback, is_unique, added_rule, removed_rule, ObjectManager, added_table,
  removed_table, set_interfaces_added_callback, set_interfaces_removed_callback, on_manager_signal,
  call_added, call_removed,
}
use libultrabus.Subscriptions.Changes.{IsListed, IsChanged, kept_name, set_callback-IsChanged}
use libultrabus.Subscriptions.Rules.{
  added_rest, removed_rest, Differ, added_rule-shape, removed_rule-shape, shape-Differ,
  families_differ, differ_comm,
}

-- What is known of dbus_validate_bus_name and dbus_validate_path, and of the name that the bus
-- gives: a bus name and an object path have no quote.
pub record IsPlain (env : Env) : Type 0 where
  pub plain_name : (s : String) → env.valid_name s ≡ true → HasNoQuote s
  pub plain_path : (s : String) → env.valid_path s ≡ true → HasNoQuote s
  pub plain_owner : HasNoQuote env.owner.value

-- Every callback has its rule.
pub record IsCovered (s : ObjectManager) : Type 0 where
  pub added_listed :
      (b p : String)
      → HasNoQuote b
      → HasNoQuote p
      → IsListed (added_rule b p) (find_callback b p s.iface_added) (added_table s)
  pub removed_listed :
      (b p : String)
      → HasNoQuote b
      → HasNoQuote p
      → IsListed (removed_rule b p) (find_callback b p s.iface_removed) (removed_table s)

-- Every callback of a table has its rule in the filter.
abbrev AllListed : (String → String → String) → Table → Type 0
AllListed rule t =
    (b p : String)
    → HasNoQuote b
    → HasNoQuote p
    → IsListed (rule b p) (find_callback b p t.entries) t

-- A setter refuses, and nothing changes, or the name and the path have no quote.
set_callback-cases :
    (env : Env) (rule : String → String → String) (bus_name opath : String) (callback : Option ℕ)
    (t : Table)
    → IsPlain env
    → (HasNoQuote (kept_name env bus_name) × HasNoQuote opath)
      ⊎ ((set_callback env rule bus_name opath callback t).0 ≡ t)
unfolding set_callback
set_callback-cases env rule bus_name opath callback t w =
    elim (Bool-cases (env.valid_name bus_name)) [
      | inr e ↦ inr (rw e refl)
      | inl e ↦ elim (Bool-cases (env.valid_path opath)) [
        | inr f ↦ inr (rw (e, f) refl)
        | inl f ↦ inl (
          if_intro HasNoQuote (is_unique bus_name) (λ _. w.plain_name bus_name e)
              (λ _. w.plain_owner),
          w.plain_path opath f,
        )
      ]
    ]

module _ (rule : String → String → String) (differ : Differ rule) (name opath : String)
    (callback : Option ℕ) (t : Table) (r : Table × Retvalue Bool) (hn : HasNoQuote name)
    (ho : HasNoQuote opath) (v : IsChanged (rule name opath) name opath callback t r) where
  changed-AllListed : AllListed rule t → AllListed rule r.0
  changed-AllListed h b p hb hp = elim (Bool-cases (str_eq name b && str_eq opath p)) [
    | inl e ↦
        let x = (eq_iff name b).0 (ground arith) in
        let y = (eq_iff opath p).0 (ground arith) in rw (← x, ← y) (v.listed (h name opath hn ho))
    | inr e ↦ λ cb found.
        let same = v.others b p e in
        let kept = v.other_rules (rule b p) (differ name opath b p hn ho hb hp e) in
        kept ∙ h b p hb hp cb (sym same ∙ found)
  ]

-- The rules of the other map are not touched.
others-AllListed :
    (rule other : String → String → String) (name opath : String) (callback : Option ℕ)
    (t u : Table) (r : Table × Retvalue Bool)
    → ((b p : String) → HasNoQuote b → HasNoQuote p → str_eq (rule name opath) (other b p) ≡ false)
    → IsChanged (rule name opath) name opath callback t r
    → u.filter ≡ t.filter
    → AllListed other u
    → AllListed other (record u { filter = r.0.filter })
others-AllListed rule other name opath callback t u r d v e h b p hb hp cb found =
    v.other_rules (other b p) (d b p hb hp)
    ∙ ap (λ f. contains (other b p) f.match_rules) (sym e)
    ∙ h b p hb hp cb found

added-IsCovered :
    (env : Env) (bus_name opath : String) (callback : Option ℕ) (s : ObjectManager)
    → IsPlain env
    → IsCovered s
    → IsCovered (set_interfaces_added_callback env bus_name opath callback s).0
unfolding set_interfaces_added_callback
added-IsCovered env bus_name opath callback s w c =
    let v = set_callback-IsChanged env added_rule bus_name opath callback (added_table s) in
    elim (set_callback-cases env added_rule bus_name opath callback (added_table s) w) [
      | inl (hn, ho) ↦ record {
        added_listed =
            changed-AllListed added_rule (shape-Differ added_rule added_rest added_rule-shape) _
              opath callback (added_table s) _ hn ho v c.added_listed;
        removed_listed =
            others-AllListed added_rule removed_rule _ opath callback (added_table s)
              (removed_table s) _ (λ b p hb hp. families_differ _ opath b p hn ho hb hp) v refl
              c.removed_listed;
      }
      | inr e ↦ rw e c
    ]

removed-IsCovered :
    (env : Env) (bus_name opath : String) (callback : Option ℕ) (s : ObjectManager)
    → IsPlain env
    → IsCovered s
    → IsCovered (set_interfaces_removed_callback env bus_name opath callback s).0
unfolding set_interfaces_removed_callback
removed-IsCovered env bus_name opath callback s w c =
    let v = set_callback-IsChanged env removed_rule bus_name opath callback (removed_table s) in
    elim (set_callback-cases env removed_rule bus_name opath callback (removed_table s) w) [
      | inl (hn, ho) ↦ record {
        removed_listed =
            changed-AllListed removed_rule
              (shape-Differ removed_rule removed_rest removed_rule-shape) _ opath callback
              (removed_table s) _ hn ho v c.removed_listed;
        added_listed =
            others-AllListed removed_rule added_rule _ opath callback (removed_table s)
              (added_table s) _
              (λ b p hb hp. differ_comm _ _ (families_differ b p _ opath hb hp hn ho)) v refl
              c.added_listed;
      }
      | inr e ↦ rw e c
    ]

call_added-IsCovered :
    (found : Option ℕ) (args : Option (String × List (String × ℕ))) (s : ObjectManager)
    → IsCovered s
    → IsCovered (call_added found args s)
call_added-IsCovered none args s c = c
call_added-IsCovered (some cb) none s c = c
call_added-IsCovered (some cb) (some a) s c = record {
  added_listed = c.added_listed;
  removed_listed = c.removed_listed;
}

call_removed-IsCovered :
    (found : Option ℕ) (args : Option (String × List String)) (s : ObjectManager)
    → IsCovered s
    → IsCovered (call_removed found args s)
call_removed-IsCovered none args s c = c
call_removed-IsCovered (some cb) none s c = c
call_removed-IsCovered (some cb) (some a) s c = record {
  added_listed = c.added_listed;
  removed_listed = c.removed_listed;
}

signal-IsCovered :
    (msg : Signal) (s : ObjectManager) → IsCovered s → IsCovered (on_manager_signal msg s)
unfolding on_manager_signal
signal-IsCovered msg s c =
    if_intro IsCovered (not (str_eq msg.interface "org.freedesktop.DBus.ObjectManager")) (λ _. c)
      (λ _.
        if_intro IsCovered (str_eq msg.name "InterfacesAdded") (λ _. call_added-IsCovered _ _ s c)
          (λ _.
            if_intro IsCovered (str_eq msg.name "InterfacesRemoved")
              (λ _. call_removed-IsCovered _ _ s c) (λ _. c)))

-- What happens to an object manager: its two setters, with any answers of libdbus and the bus, and
-- signals.
pub data Step : ObjectManager → ObjectManager → Type 0 where
  set_added :
      (env : Env) (bus_name opath : String) (callback : Option ℕ) (s : ObjectManager)
      → IsPlain env
      → Step s (set_interfaces_added_callback env bus_name opath callback s).0
  set_removed :
      (env : Env) (bus_name opath : String) (callback : Option ℕ) (s : ObjectManager)
      → IsPlain env
      → Step s (set_interfaces_removed_callback env bus_name opath callback s).0
  signal : (msg : Signal) (s : ObjectManager) → Step s (on_manager_signal msg s)

abbrev pub new_manager : ObjectManager
new_manager = record { filter = new_filter; iface_added = []; iface_removed = []; calls = [] }

pub data Reach : ObjectManager → Type 0 where
  begin : Reach new_manager
  next : {s t : ObjectManager} → Reach s → Step s t → Reach t

Step-IsCovered : {s t : ObjectManager} → Step s t → IsCovered s → IsCovered t
Step-IsCovered (set_added env bus_name opath callback s w) c =
    added-IsCovered env bus_name opath callback s w c
Step-IsCovered (set_removed env bus_name opath callback s w) c =
    removed-IsCovered env bus_name opath callback s w c
Step-IsCovered (signal msg s) c = signal-IsCovered msg s c

new_manager-IsCovered : IsCovered new_manager
unfolding find_callback
new_manager-IsCovered = record {
  added_listed = λ b p hb hp cb h. cc h;
  removed_listed = λ b p hb hp cb h. cc h;
}

-- After any sequence of calls of the two setters, each of which may fail, and of signals: an object
-- manager has a callback for a name and a path only if its filter has the match rule of that signal
-- for that name and path. So adding or removing one callback never takes the rule of another away,
-- not even where the two setters are used for the same name and path. The names and paths that
-- libdbus takes for valid, and the owners that the bus names, hold no quote.
pub Reach-IsCovered : {s : ObjectManager} → Reach s → IsCovered s
Reach-IsCovered begin = new_manager-IsCovered
Reach-IsCovered (next r st) = Step-IsCovered st (Reach-IsCovered r)
