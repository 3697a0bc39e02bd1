-- ===== src/Matches/Outcome.antt =====
-- What the synchronous add_match and remove_match return, and what they change.
use Prim.Native.String.{String}
use text.Mathlib.Text.{◌==◌ as str_eq}
use text.Mathlib.TextPositions.{eq_refl}
use libultrabus.Common.{◌≡◌, refl, Bool, true, false, if_intro, arith}
use libultrabus.Retvalue.{Retvalue, is_zero, of_value}
use libultrabus.Matches.{
  Filter, Reply, Traffic, requested, add_rule, remove_rule, say, not_connected, success, error,
  timed_out, on_add_reply, on_remove_reply, add_match, remove_match,
}
use libultrabus.Matches.Rules.{contains, contains-emplace, contains-erase}

-- The value says whether `rule` is as wanted, the error code goes with it, and no other rule
-- changes.
pub record IsDone (wanted : Bool) (rule : String) (f : Filter) (r : Filter × Retvalue Bool)
    : Type 0 where
  pub as_wanted : r.1.value ≡ true → contains rule r.0.match_rules ≡ wanted
  pub unchanged : r.1.value ≡ false → r.0.match_rules ≡ f.match_rules
  pub with_error : is_zero r.1.err_num ≡ r.1.value
  pub others :
      (q : String) → str_eq rule q ≡ false → contains q r.0.match_rules ≡ contains q f.match_rules

kept-IsDone :
    (wanted : Bool) (rule : String) (f : Filter)
    → contains rule f.match_rules ≡ wanted
    → IsDone wanted rule f (f, of_value true)
kept-IsDone wanted rule f e = record {
  as_wanted = λ _. e;
  unchanged = λ _. refl;
  with_error = refl;
  others = λ q h. refl;
}

not_connected-IsDone :
    (wanted : Bool) (rule : String) (f : Filter) → IsDone wanted rule f (f, not_connected)
not_connected-IsDone wanted rule f = record {
  as_wanted = λ h. cc h;
  unchanged = λ _. refl;
  with_error = refl;
  others = λ q h. refl;
}

said-IsDone :
    (wanted : Bool) (t : Traffic) (rule : String) (f : Filter) (r : Filter × Retvalue Bool)
    → IsDone wanted rule (say t f) r
    → IsDone wanted rule f r
said-IsDone wanted t rule f r v = record {
  as_wanted = v.as_wanted;
  unchanged = v.unchanged;
  with_error = v.with_error;
  others = v.others;
}

on_add_reply-IsDone :
    (rule : String) (reply : Reply) (f : Filter) → IsDone true rule f (on_add_reply rule reply f)
unfolding on_add_reply
on_add_reply-IsDone rule success f = record {
  as_wanted =
      λ _. let e = contains-emplace rule rule f.match_rules in let h = eq_refl rule in ground arith;
  unchanged = λ h. cc h;
  with_error = refl;
  others = λ q e. let h = contains-emplace rule q f.match_rules in ground arith;
}
on_add_reply-IsDone rule (error name msg) f = record {
  as_wanted = λ h. cc h;
  unchanged = λ _. refl;
  with_error = refl;
  others = λ q e. refl;
}
on_add_reply-IsDone rule (timed_out true name msg) f = record {
  as_wanted = λ h. cc h;
  unchanged = λ _. refl;
  with_error = refl;
  others = λ q e. refl;
}
on_add_reply-IsDone rule (timed_out false name msg) f = record {
  as_wanted = λ h. cc h;
  unchanged = λ _. refl;
  with_error = refl;
  others = λ q e. refl;
}

on_remove_reply-IsDone :
    (rule : String) (reply : Reply) (f : Filter)
    → IsDone false rule f (on_remove_reply rule reply f)
unfolding on_remove_reply
on_remove_reply-IsDone rule success f = record {
  as_wanted =
      λ _. let e = contains-erase rule rule f.match_rules in let h = eq_refl rule in ground arith;
  unchanged = λ h. cc h;
  with_error = refl;
  others = λ q e. let h = contains-erase rule q f.match_rules in ground arith;
}
on_remove_reply-IsDone rule (error name msg) f = record {
  as_wanted = λ h. cc h;
  unchanged = λ _. refl;
  with_error = refl;
  others = λ q e. refl;
}
on_remove_reply-IsDone rule (timed_out true name msg) f = record {
  as_wanted = λ h. cc h;
  unchanged = λ _. refl;
  with_error = refl;
  others = λ q e. refl;
}
on_remove_reply-IsDone rule (timed_out false name msg) f = record {
  as_wanted = λ h. cc h;
  unchanged = λ _. refl;
  with_error = refl;
  others = λ q e. refl;
}

-- Whatever is_connected and the bus answer: add_match returns true without an error, and the
-- filter then has the rule, or it returns false with an error, and the filter has the rules that
-- it had. No other rule is added or removed.
pub add_match-IsDone :
    (conn_up : Bool) (reply : Reply) (rule : String) (f : Filter)
    → IsDone true rule f (add_match conn_up reply rule f)
unfolding add_match
add_match-IsDone conn_up reply rule f =
    if_intro (IsDone true rule f) conn_up
      (λ _.
        if_intro (IsDone true rule f) (contains rule f.match_rules) (kept-IsDone true rule f) (λ _.
          said-IsDone true (requested add_rule rule) rule f _ (on_add_reply-IsDone rule reply _)))
      (λ _. not_connected-IsDone true rule f)

-- The same of remove_match: it returns true without an error, and the filter then has the rule no
-- longer, or it returns false with an error, and the filter has the rules that it had.
pub remove_match-IsDone :
    (conn_up : Bool) (reply : Reply) (rule : String) (f : Filter)
    → IsDone false rule f (remove_match conn_up reply rule f)
unfolding remove_match
remove_match-IsDone conn_up reply rule f =
    if_intro (IsDone false rule f) conn_up
      (λ _.
        if_intro (IsDone false rule f) (contains rule f.match_rules)
          (λ _.
            said-IsDone false (requested remove_rule rule) rule f _
              (on_remove_reply-IsDone rule reply _))
          (kept-IsDone false rule f))
      (λ _. not_connected-IsDone false rule f)
