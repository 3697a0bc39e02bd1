-- ===== src/Matches/Drift.antt =====
-- How the rules of a filter and those of the bus come apart.
use Prim.Native.String.{String}
use text.Mathlib.TextPositions.{eq_refl}
use libultrabus.Common.{ℕ, false, ◌+◌, ◌-◌, ◌≡◌, refl, ◌∷◌, true, false, none, some, arith}
use libultrabus.Retvalue.{of_value}
use libultrabus.Matches.{
  closed, accepted, requested, add_rule, remove_rule, on_remove_reply, Filter, Reply, success,
  timed_out, say, add_match, add_match_async, on_add_reply, remove_match, held,
}
use libultrabus.Matches.Rules.{contains, emplace, erase, contains-emplace, contains-erase}

emplaced : (rule : String) (f : Filter) → contains rule (emplace rule f.match_rules) ≡ true
emplaced rule f =
    let e = contains-emplace rule rule f.match_rules in let h = eq_refl rule in ground arith

add_match-contains :
    (reply : Reply) (rule : String) (f : Filter)
    → contains rule f.match_rules ≡ true
    → add_match true reply rule f ≡ (f, of_value true)
unfolding add_match
add_match-contains reply rule f e = rw (e) refl

-- An asynchronous add without a callback that cannot be sent reports failure, but the filter has
-- the rule from then on: a later add_match reports success and asks the bus for nothing.
pub add_match-add_match_async :
    (reply : Reply) (rule : String) (f : Filter)
    → contains rule f.match_rules ≡ false
    → let r = add_match_async true false none rule f in
      (r.1 ≡ false)
      × (add_match true reply rule r.0 ≡ (r.0, of_value true))
      × (held rule r.0.log ≡ held rule f.log)
unfolding add_match_async
add_match-add_match_async reply rule f e =
    rw (e) (refl, add_match-contains reply rule _ (emplaced rule f), refl)

-- A connection that was closed and opened again leaves the filter its rules: add_match of one of
-- them reports success although the bus does not hold it, and asks the bus for nothing.
pub add_match-closed :
    (reply : Reply) (rule : String) (f : Filter)
    → contains rule f.match_rules ≡ true
    → (add_match true reply rule (say closed f) ≡ (say closed f, of_value true))
      × (held rule (say closed f).log ≡ 0)
unfolding held
add_match-closed reply rule f e = (add_match-contains reply rule (say closed f) e, refl)

abbrev pub asked_twice : String → ℕ → ℕ → Filter → Filter
asked_twice rule cb cb2 f =
    let asked =
      (add_match_async true true (some cb2) rule
        (add_match_async true true (some cb) rule f).0).0 in
    (on_add_reply rule success (on_add_reply rule success asked).0).0

asked :
    (cb : ℕ) (rule : String) (f : Filter)
    → contains rule f.match_rules ≡ false
    → (add_match_async true true (some cb) rule f).0 ≡ say (requested add_rule rule) f
unfolding add_match_async
asked cb rule f e = rw (e) refl

asked_twice_eq :
    (rule : String) (cb cb2 : ℕ) (f : Filter)
    → contains rule f.match_rules ≡ false
    → asked_twice rule cb cb2 f ≡ record {
      match_rules = emplace rule (emplace rule f.match_rules);
      log =
          accepted add_rule rule
          ∷ accepted add_rule rule
          ∷ requested add_rule rule
          ∷ requested add_rule rule
          ∷ f.log;
    }
unfolding on_add_reply
asked_twice_eq rule cb cb2 f e =
    let h = asked cb rule f e in
    let k = asked cb2 rule (say (requested add_rule rule) f) e in rw (h, k) refl

remove_match-contains :
    (rule : String) (f : Filter)
    → contains rule f.match_rules ≡ true
    → remove_match true success rule f ≡ (
      record {
        match_rules = erase rule f.match_rules;
        log = accepted remove_rule rule ∷ requested remove_rule rule ∷ f.log;
      },
      of_value true,
    )
unfolding remove_match on_remove_reply
remove_match-contains rule f e = rw (e) refl

-- Two asynchronous adds of the same rule before the first reply are both sent and both accepted:
-- the bus holds the rule twice and the filter has it once, so after a remove_match that reports
-- success the bus still holds it.
pub remove_match-asked_twice :
    (rule : String) (cb cb2 : ℕ) (f : Filter)
    → contains rule f.match_rules ≡ false
    → held rule f.log ≡ 0
    → let r = remove_match true success rule (asked_twice rule cb cb2 f) in
      (r.1 ≡ of_value true) × (contains rule r.0.match_rules ≡ false) × (held rule r.0.log ≡ 1)
unfolding held
remove_match-asked_twice rule cb cb2 f e h =
    let twice = emplace rule (emplace rule f.match_rules) in
    let k = remove_match-contains rule (asked_twice rule cb cb2 f) (
      rw (asked_twice_eq rule cb cb2 f e)
        (emplaced rule (record f { match_rules = emplace rule f.match_rules }))) in
    let gone = contains-erase rule rule twice in
    let same = eq_refl rule in
    rw (k, asked_twice_eq rule cb cb2 f e) (refl, ground arith, ground arith)

-- A request that the bus has carried out although its reply did not come in time is a failure for the
-- filter: after such an add_match the bus holds the rule once more and the filter does not have it,
-- after such a remove_match the bus holds it once less and the filter still has it.
pub match-timed_out :
    (name msg rule : String) (f : Filter)
    → let late = timed_out true name msg in
      (contains rule f.match_rules ≡ false
        → let r = add_match true late rule f in
          (r.1.value ≡ false)
          × (contains rule r.0.match_rules ≡ false)
          × (held rule r.0.log ≡ held rule f.log + 1))
      × (contains rule f.match_rules ≡ true
          → let r = remove_match true late rule f in
            (r.1.value ≡ false)
            × (contains rule r.0.match_rules ≡ true)
            × (held rule r.0.log ≡ held rule f.log - 1))
unfolding add_match remove_match on_add_reply on_remove_reply held
match-timed_out name msg rule f =
    let same = eq_refl rule in
    (λ e. rw (e, same) (refl, e, refl), λ e. rw (e, same) (refl, e, refl))
