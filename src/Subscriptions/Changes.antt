-- ===== src/Subscriptions/Changes.antt =====
-- What a change of a callback leaves behind.
use Prim.Native.String.{String}
use text.Mathlib.Text.{◌==◌ as str_eq}
use libultrabus.Common.{
  ℕ, ◌≡◌, refl, sym, ◌∙◌, Bool, true, false, not, ◌&&◌, Option, none, some, if◌then◌else◌, if_intro,
}
use libultrabus.Common.Pairs.{
  find_callback, put_callback, find_callback-erase_callback, find_callback-erase_others,
  find_callback-put_callback, find_callback-put_others,
}
use libultrabus.Retvalue.{Retvalue, is_zero}
use libultrabus.Matches.{add_match}
use libultrabus.Matches.Rules.{contains}
use libultrabus.Matches.Outcome.{add_match-IsDone, remove_match-IsDone}
use libultrabus.Subscriptions.{
  Env, Table, change, set_callback_impl, set_callback, is_unique, refused,
}

-- There is a callback only if the filter has the rule.
abbrev pub IsListed : String → Option ℕ → Table → Type 0
IsListed rule found t = (cb : ℕ) → found ≡ some cb → contains rule t.filter.match_rules ≡ true

pub record IsChanged (rule bus_name opath : String) (callback : Option ℕ) (t : Table)
    (r : Table × Retvalue Bool) : Type 0 where
  pub as_set : r.1.value ≡ true → find_callback bus_name opath r.0.entries ≡ callback
  pub kept :
      r.1.value ≡ false
      → find_callback bus_name opath r.0.entries ≡ find_callback bus_name opath t.entries
  pub others :
      (j p : String)
      → (str_eq bus_name j && str_eq opath p) ≡ false
      → find_callback j p r.0.entries ≡ find_callback j p t.entries
  pub with_error : is_zero r.1.err_num ≡ r.1.value
  pub other_rules :
      (q : String)
      → str_eq rule q ≡ false
      → contains q r.0.filter.match_rules ≡ contains q t.filter.match_rules
  pub listed :
      IsListed rule (find_callback bus_name opath t.entries) t
      → IsListed rule (find_callback bus_name opath r.0.entries) r.0

-- Nothing changes, and an error is returned.
refused-IsChanged :
    (rule bus_name opath : String) (callback : Option ℕ) (t : Table) (description : String)
    → IsChanged rule bus_name opath callback t (t, refused description)
refused-IsChanged rule bus_name opath callback t description = record {
  as_set = λ h. cc h;
  kept = λ _. refl;
  others = λ j p d. refl;
  with_error = refl;
  other_rules = λ q d. refl;
  listed = λ h. h;
}

module _ (env : Env) (rule : String → String → String) (bus_name opath : String) (t : Table) where
  added-IsChanged :
      (cb : ℕ)
      → find_callback bus_name opath t.entries ≡ none
      → IsChanged
          (rule bus_name opath)
          bus_name
          opath
          (some cb)
          t
          (change env rule bus_name opath none (some cb) t)
  unfolding change
  added-IsChanged cb e =
      let v = add_match-IsDone env.up env.add_reply (rule bus_name opath) t.filter in
      let put = put_callback bus_name opath cb t.entries in
      let ok = (add_match env.up env.add_reply (rule bus_name opath) t.filter).1.value in
      record {
        as_set = λ h. rw (h) (find_callback-put_callback bus_name opath cb t.entries);
        kept = λ h. rw (h) (find_callback-erase_callback bus_name opath put ∙ sym e);
        others = λ j p d.
            let k = find_callback-put_others bus_name opath j p cb t.entries d in
            if_intro (λ es. find_callback j p es ≡ find_callback j p t.entries) ok (λ _. k)
              (λ _. find_callback-erase_others bus_name opath j p put d ∙ k);
        with_error = v.with_error;
        other_rules = v.others;
        listed = λ old.
            if_intro
              (λ es.
                (c : ℕ)
                → find_callback bus_name opath es ≡ some c
                → contains (rule bus_name opath)
                    (add_match env.up env.add_reply (rule bus_name opath) t.filter).0.match_rules
                  ≡ true)
              ok (λ h c k. v.as_wanted h)
              (λ h c k. let none_left = find_callback-erase_callback bus_name opath put in cc);
      }

  change-IsChanged :
      (old callback : Option ℕ)
      → find_callback bus_name opath t.entries ≡ old
      → IsChanged
          (rule bus_name opath)
          bus_name
          opath
          callback
          t
          (change env rule bus_name opath old callback t)
  change-IsChanged none (some cb) e = added-IsChanged cb e
  change-IsChanged none none e =
      unfold change in
      record {
        as_set = λ _. e;
        kept = λ _. refl;
        others = λ j p d. refl;
        with_error = refl;
        other_rules = λ q d. refl;
        listed = λ h. h;
      }
  change-IsChanged (some old) (some cb) e =
      unfold change in
      record {
        as_set = λ _. find_callback-put_callback bus_name opath cb t.entries;
        kept = λ h. cc h;
        others = λ j p d. find_callback-put_others bus_name opath j p cb t.entries d;
        with_error = refl;
        other_rules = λ q d. refl;
        listed = λ h c k. h old e;
      }
  change-IsChanged (some old) none e =
      unfold change in
      let v = remove_match-IsDone env.up env.remove_reply (rule bus_name opath) t.filter in
      record {
        as_set = λ _. find_callback-erase_callback bus_name opath t.entries;
        kept = λ h. cc h;
        others = λ j p d. find_callback-erase_others bus_name opath j p t.entries d;
        with_error = refl;
        other_rules = v.others;
        listed =
            λ h c k. let none_left = find_callback-erase_callback bus_name opath t.entries in cc;
      }

-- The name that a callback is kept by: that of the owner, if the name is not unique.
abbrev pub kept_name : Env → String → String
kept_name env bus_name = if is_unique bus_name then bus_name else env.owner.value

-- A setter refuses, or it changes the callback for the kept name.
pub set_callback-IsChanged :
    (env : Env) (rule : String → String → String) (bus_name opath : String) (callback : Option ℕ)
    (t : Table)
    → IsChanged
        (rule (kept_name env bus_name) opath)
        (kept_name env bus_name)
        opath
        callback
        t
        (set_callback env rule bus_name opath callback t)
unfolding set_callback set_callback_impl
set_callback-IsChanged env rule bus_name opath callback t =
    let P =
      IsChanged (rule (kept_name env bus_name) opath) (kept_name env bus_name) opath callback t in
    let refusal = λ (d : String).
      refused-IsChanged (rule (kept_name env bus_name) opath) (kept_name env bus_name) opath
        callback t d in
    if_intro P (not (env.valid_name bus_name)) (λ _. refusal _)
      (λ _.
        if_intro P (not (env.valid_path opath)) (λ _. refusal _)
          (λ _.
            if_intro P (is_unique bus_name)
              (λ u. rw u (change-IsChanged env rule bus_name opath t _ callback refl))
              (λ u.
                if_intro P (is_zero env.owner.err_num)
                  (λ _. rw u (change-IsChanged env rule env.owner.value opath t _ callback refl))
                  (λ _. refusal _))))
