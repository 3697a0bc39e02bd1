-- ===== src/Proxy/Rooted.antt =====
-- The match rules of the object manager callbacks.
use Prim.Native.String.{String}
use text.Mathlib.Text.{◌==◌ as str_eq}
use text.Mathlib.TextEquality.{eq_iff}
use text.Mathlib.TextLemmas.{append_cancel_left, append_cancel_right}
use libultrabus.Common.{
  ℕ, ◌≡◌, refl, Bool, true, false, Option, none, some, ap, ◌∙◌, sym, Bool-cases, inl, inr,
}
use libultrabus.Matches.{Filter, add_match}
use libultrabus.Matches.Rules.{contains}
use libultrabus.Matches.Outcome.{add_match-IsDone, remove_match-IsDone}
use libultrabus.Proxy.{Proxy, Env, is_empty, resolve}
use libultrabus.Proxy.Ifaces.{
  iface_rule, Rooted, change_root, added_rule, removed_rule, set_interfaces_added_callback,
  set_interfaces_removed_callback,
}

not_equal : (p q : String) → str_eq p q ≡ false → str_eq q p ≡ false
not_equal p q d = elim (Bool-cases (str_eq q p)) [
  | inl h ↦ let k = (eq_iff p q).1 (sym ((eq_iff q p).0 h)) in cc
  | inr h ↦ h
]

-- Rules of two paths are equal only if the paths are.
iface_rule_differs :
    (member bus_name arg p q : String)
    → str_eq p q ≡ false
    → str_eq (iface_rule member bus_name arg p) (iface_rule member bus_name arg q) ≡ false
iface_rule_differs member bus_name arg p q d =
    let rule = iface_rule member bus_name arg in
    elim (Bool-cases (str_eq (rule p) (rule q))) [
      | inl h ↦
          let e = (eq_iff (rule p) (rule q)).0 h in
          let g = append_cancel_right p q _ (append_cancel_left _ _ _ e) in
          let k = (eq_iff p q).1 g in cc
      | inr h ↦ h
    ]

-- A callback that is set has its rule; the setter that succeeds has done what was asked, and the
-- one that fails has changed neither the callback nor its path.
pub record IsRooted (rule : String → String) (om_root : String) (callback old : Option ℕ)
    (root : String) (r : Rooted) : Type 0 where
  pub listed : (cb : ℕ) → r.callback ≡ some cb → contains (rule r.root) r.filter.match_rules ≡ true
  pub done : r.ok ≡ true → r.callback ≡ callback
  pub at_root : (cb : ℕ) → r.ok ≡ true → callback ≡ some cb → r.root ≡ om_root
  pub kept : r.ok ≡ false → (r.callback ≡ old) × (r.root ≡ root)

module _ (env : Env) (rule : String → String)
    (differs : (p q : String) → str_eq p q ≡ false → str_eq (rule p) (rule q) ≡ false) where
  first-IsRooted :
      (om_root : String) (cb : ℕ) (root : String) (f : Filter)
      → IsRooted rule om_root
          (some cb)
          none
          root
          (change_root env rule om_root (some cb) none root f)
  unfolding change_root
  first-IsRooted om_root cb root f =
      let v = add_match-IsDone env.up env.add_reply (rule om_root) f in
      elim (Bool-cases (add_match env.up env.add_reply (rule om_root) f).1.value) [
        | inl e ↦
            let h = v.as_wanted e in
            rw (e) (record {
              listed = λ c _. h;
              done = λ _. refl;
              at_root = λ c _ _. refl;
              kept = λ h. cc;
            })
        | inr e ↦ rw (e) (record {
          listed = λ c h. cc;
          done = λ h. cc;
          at_root = λ c h _. cc;
          kept = λ _. (refl, refl);
        })
      ]

  moved-IsRooted :
      (om_root : String) (cb old : ℕ) (root : String) (f : Filter)
      → contains (rule root) f.match_rules ≡ true
      → IsRooted rule om_root
          (some cb)
          (some old)
          root
          (change_root env rule om_root (some cb) (some old) root f)
  unfolding change_root
  moved-IsRooted om_root cb old root f l =
      let g = (add_match env.up env.add_reply (rule om_root) f).0 in
      let v = add_match-IsDone env.up env.add_reply (rule om_root) f in
      let w = remove_match-IsDone env.up env.remove_reply (rule root) g in
      elim (Bool-cases (str_eq om_root root)) [
        | inl e ↦
            let h = ap (λ p. contains (rule p) f.match_rules) ((eq_iff om_root root).0 e) ∙ l in
            rw (e) (record {
              listed = λ c _. h;
              done = λ _. refl;
              at_root = λ c _ _. refl;
              kept = λ h. cc;
            })
        | inr d ↦ elim (Bool-cases (add_match env.up env.add_reply (rule om_root) f).1.value) [
          | inl e ↦
              let h =
                w.others (rule om_root) (differs root om_root (not_equal om_root root d))
                ∙ v.as_wanted e in
              rw (d, e)
                (record {
                  listed = λ c _. h;
                  done = λ _. refl;
                  at_root = λ c _ _. refl;
                  kept = λ h. cc;
                })
          | inr e ↦
              let h = ap (contains (rule root)) (v.unchanged e) ∙ l in
              rw (d, e)
                (record {
                  listed = λ c _. h;
                  done = λ h. cc;
                  at_root = λ c h _. cc;
                  kept = λ _. (refl, refl);
                })
        ]
      ]

  change_root-IsRooted :
      (om_root : String) (callback old : Option ℕ) (root : String) (f : Filter)
      → ((cb : ℕ) → old ≡ some cb → contains (rule root) f.match_rules ≡ true)
      → IsRooted rule om_root callback old root (change_root env rule om_root callback old root f)
  unfolding change_root
  change_root-IsRooted om_root none none root f l = record {
    listed = λ c h. cc;
    done = λ _. refl;
    at_root = λ c _ h. cc;
    kept = λ h. cc;
  }
  change_root-IsRooted om_root none (some old) root f l = record {
    listed = λ c h. cc;
    done = λ _. refl;
    at_root = λ c _ h. cc;
    kept = λ h. cc;
  }
  change_root-IsRooted om_root (some cb) none root f l = first-IsRooted om_root cb root f
  change_root-IsRooted om_root (some cb) (some old) root f l =
      moved-IsRooted om_root cb old root f (l old refl)

-- What a proxy keeps for the two object manager callbacks.
abbrev pub added : Proxy → Bool → Rooted
added s ok = record {
  filter = s.filter;
  callback = s.object_ifaces_added_cb;
  root = s.iface_add_om_root;
  ok = ok;
}

-- On a proxy that knows the owner of its target: after set_interfaces_added_callback, whatever the
-- bus answers, a callback that is set has its match rule. If it returns true, the callback and its
-- path are the ones that were given; if it returns false, they are the ones that were set before.
-- Before it, a callback that was set has to have its rule.
pub set_interfaces_added_callback-IsRooted :
    (env : Env) (callback : Option ℕ) (om_root : String) (s : Proxy)
    → is_empty s.target_unique_name ≡ false
    → ((cb : ℕ)
        → s.object_ifaces_added_cb ≡ some cb
        → contains (added_rule s s.iface_add_om_root) s.filter.match_rules ≡ true)
    → let r = set_interfaces_added_callback env callback om_root s in
      IsRooted
        (added_rule s)
        om_root
        callback
        s.object_ifaces_added_cb
        s.iface_add_om_root
        (added r.0 r.1)
unfolding set_interfaces_added_callback resolve
set_interfaces_added_callback-IsRooted env callback om_root s e l =
    let v =
      change_root-IsRooted env (added_rule s)
        (iface_rule_differs "InterfacesAdded" s.target_unique_name s.opath) om_root callback _ _ _
        l in
    rw (e) (record { listed = v.listed; done = v.done; at_root = v.at_root; kept = v.kept })

abbrev pub removed : Proxy → Bool → Rooted
removed s ok = record {
  filter = s.filter;
  callback = s.object_ifaces_removed_cb;
  root = s.iface_del_om_root;
  ok = ok;
}

-- The same of set_interfaces_removed_callback, with its own callback, path and rule.
pub set_interfaces_removed_callback-IsRooted :
    (env : Env) (callback : Option ℕ) (om_root : String) (s : Proxy)
    → is_empty s.target_unique_name ≡ false
    → ((cb : ℕ)
        → s.object_ifaces_removed_cb ≡ some cb
        → contains (removed_rule s s.iface_del_om_root) s.filter.match_rules ≡ true)
    → let r = set_interfaces_removed_callback env callback om_root s in
      IsRooted
        (removed_rule s)
        om_root
        callback
        s.object_ifaces_removed_cb
        s.iface_del_om_root
        (removed r.0 r.1)
unfolding set_interfaces_removed_callback resolve
set_interfaces_removed_callback-IsRooted env callback om_root s e l =
    let v =
      change_root-IsRooted env (removed_rule s)
        (iface_rule_differs "InterfacesRemoved" s.target_unique_name s.opath) om_root callback _ _ _
        l in
    rw (e) (record { listed = v.listed; done = v.done; at_root = v.at_root; kept = v.kept })
