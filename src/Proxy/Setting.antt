-- ===== src/Proxy/Setting.antt =====
-- What set_signal_callback leaves behind.
use Prim.Native.String.{String}
use text.Mathlib.Text.{◌==◌ as str_eq}
use libultrabus.Common.{
  ℕ, ◌≡◌, refl, Bool, true, false, not, ◌&&◌, Option, none, some, if◌then◌else◌, if_intro, ◌∙◌, ap,
  sym,
}
use libultrabus.Retvalue.{is_zero}
use libultrabus.Matches.{add_match}
use libultrabus.Matches.Rules.{contains}
use libultrabus.Matches.Outcome.{add_match-IsDone}
use libultrabus.Common.Pairs.{
  find_callback, put_callback, find_callback-erase_callback, find_callback-erase_others,
  find_callback-put_callback, find_callback-put_others,
}
use libultrabus.Proxy.{
  Proxy, Env, is_empty, own_rule, resolve, change_callback, set_signal_callback,
}

abbrev pub is_new : Option ℕ → Option ℕ → Bool
is_new none (some cb) = true
is_new _ _ = false

pub record IsApplied (interface signal : String) (callback : Option ℕ) (s : Proxy)
    (r : Proxy × Bool) : Type 0 where
  pub as_set : r.1 ≡ true → find_callback interface signal r.0.callbacks ≡ callback
  pub kept :
      r.1 ≡ false
      → find_callback interface signal r.0.callbacks ≡ find_callback interface signal s.callbacks
  pub others :
      (j t : String)
      → (str_eq interface j && str_eq signal t) ≡ false
      → find_callback j t r.0.callbacks ≡ find_callback j t s.callbacks
  pub listed :
      r.1 ≡ true
      → is_new (find_callback interface signal s.callbacks) callback ≡ true
      → contains (own_rule interface signal r.0) r.0.filter.match_rules ≡ true

-- Nothing changes but the owner, and failure is reported.
failed-IsApplied :
    (interface signal : String) (callback : Option ℕ) (s : Proxy)
    → IsApplied interface signal callback s (s, false)
failed-IsApplied interface signal callback s = record {
  as_set = λ e. cc e;
  kept = λ _. refl;
  others = λ j t d. refl;
  listed = λ e. cc e;
}

added-IsApplied :
    (env : Env) (interface signal : String) (cb : ℕ) (s : Proxy)
    → find_callback interface signal s.callbacks ≡ none
    → IsApplied interface signal (some cb) s (change_callback env interface signal none (some cb) s)
unfolding change_callback
added-IsApplied env interface signal cb s e =
    let v = add_match-IsDone env.up env.add_reply (own_rule interface signal s) s.filter in
    let put = put_callback interface signal cb s.callbacks in
    let ok = (add_match env.up env.add_reply (own_rule interface signal s) s.filter).1.value in
    record {
      as_set = λ h. rw (h) (find_callback-put_callback interface signal cb s.callbacks);
      kept = λ h. rw (h) (find_callback-erase_callback interface signal put ∙ sym e);
      others = λ j t d.
          let k = find_callback-put_others interface signal j t cb s.callbacks d in
          if_intro (λ es. find_callback j t es ≡ find_callback j t s.callbacks) ok (λ _. k)
            (λ _. find_callback-erase_others interface signal j t put d ∙ k);
      listed = λ h _. v.as_wanted h;
    }

change_callback-IsApplied :
    (env : Env) (interface signal : String) (old callback : Option ℕ) (s : Proxy)
    → find_callback interface signal s.callbacks ≡ old
    → IsApplied interface signal callback s (change_callback env interface signal old callback s)
unfolding change_callback
change_callback-IsApplied env interface signal none none s e = record {
  as_set = λ _. e;
  kept = λ h. cc;
  others = λ j t d. refl;
  listed = λ _ h. let k = ap (λ o. is_new o none) e in cc;
}
change_callback-IsApplied env interface signal (some o) none s e = record {
  as_set = λ _. find_callback-erase_callback interface signal s.callbacks;
  kept = λ h. cc h;
  others = λ j t d. find_callback-erase_others interface signal j t s.callbacks d;
  listed = λ _ h. let k = ap (λ x. is_new x none) e in cc;
}
change_callback-IsApplied env interface signal (some o) (some cb) s e = record {
  as_set = λ _. find_callback-put_callback interface signal cb s.callbacks;
  kept = λ h. cc h;
  others = λ j t d. find_callback-put_others interface signal j t cb s.callbacks d;
  listed = λ _ h. let k = ap (λ x. is_new x (some cb)) e in cc;
}
change_callback-IsApplied env interface signal none (some cb) s e =
    added-IsApplied env interface signal cb s e

owned-IsApplied :
    (env : Env) (interface signal : String) (callback : Option ℕ) (s : Proxy) (owner : String)
    → let t = record s { target_unique_name = owner } in
      IsApplied interface signal callback s (
        change_callback env interface signal
          (find_callback interface signal t.callbacks)
          callback
          t)
owned-IsApplied env interface signal callback s owner =
    let t = record s { target_unique_name = owner } in
    let v = change_callback-IsApplied env interface signal _ callback t refl in
    record { as_set = v.as_set; kept = v.kept; others = v.others; listed = v.listed }

resolved-IsApplied :
    (env : Env) (interface signal : String) (callback : Option ℕ) (s : Proxy)
    → let (t, ok) = resolve env s in
      IsApplied interface signal callback s (
        if ok
        then change_callback env interface signal
            (find_callback interface signal t.callbacks)
            callback
            t
        else (t, false))
unfolding resolve
resolved-IsApplied env interface signal callback s =
    let Q = λ (r : Proxy × Bool). IsApplied interface signal callback s (
      if r.1
      then change_callback env interface signal (find_callback interface signal r.0.callbacks)
          callback r.0
      else (r.0, false)) in
    if_intro Q (is_empty s.target_unique_name)
      {x = if is_zero env.owner.err_num
        then (record s { target_unique_name = env.owner.value }, true)
        else (s, false)}
      {y = (s, true)}
      (λ _.
        if_intro Q (is_zero env.owner.err_num)
          {x = (record s { target_unique_name = env.owner.value }, true)} {y = (s, false)}
          (λ _. owned-IsApplied env interface signal callback s env.owner.value)
          (λ _. failed-IsApplied interface signal callback s))
      (λ _. change_callback-IsApplied env interface signal _ callback s refl)

-- Whatever libdbus and the bus answer, set_signal_callback either returns true, and the callback
-- for this interface and signal is then the one that was given, or none if none was given; or it
-- returns false, and the callback is the one that was set before. The callbacks for other
-- interfaces and signals stay as they are. When a first callback is set with success, the filter
-- has the match rule for the signals of the target's owner.
pub set_signal_callback-IsApplied :
    (env : Env) (interface signal : String) (callback : Option ℕ) (s : Proxy)
    → IsApplied interface signal callback s (set_signal_callback env interface signal callback s)
unfolding set_signal_callback
set_signal_callback-IsApplied env interface signal callback s =
    let P = IsApplied interface signal callback s in
    let failed = failed-IsApplied interface signal callback s in
    if_intro P (not (is_empty interface) && not (env.valid_interface interface)) {x = (s, false)}
      (λ _. failed)
      (λ _.
        if_intro P (not (is_empty signal) && not (env.valid_member signal)) {x = (s, false)}
          (λ _. failed) (λ _. resolved-IsApplied env interface signal callback s))
