-- ===== src/Proxy/Clearing.antt =====
-- clear_signal_callbacks of lib/ultrabus/object_proxy.cpp.
use Prim.Native.String.{String}
use text.Mathlib.Text.{◌==◌ as str_eq}
use text.Mathlib.TextEquality.{eq_iff}
use libultrabus.Common.{
  ◌≡◌, refl, Bool, true, false, not, ◌&&◌, ◌||◌, none, List, [], ◌∷◌, arith, ap, ◌∙◌, Bool-cases,
  inl, inr,
}
use libultrabus.Matches.{Filter, Reply, success, error, timed_out, remove_match, on_remove_reply}
use libultrabus.Matches.Rules.{contains, contains-erase, contains_same}
use libultrabus.Common.Pairs.{Entry, find_callback}
use libultrabus.Proxy.{Proxy, signal_rule}

-- What is_connected and the bus answer when a rule is to be removed.
pub record RemovalAnswers : Type 0 where
  pub up : String → Bool
  pub replies : String → Reply

-- The loop over the callbacks; `rule` is make_signal_match_rule.
unfoldable pub remove_rules :
    RemovalAnswers → (rule : String → String → String) → List Entry → Filter → Filter
remove_rules answers rule [] f = f
remove_rules answers rule (e ∷ es) f =
    let r = rule e.first e.second in
    remove_rules answers rule es (remove_match (answers.up r) (answers.replies r) r f).0

unfoldable pub clear_signal_callbacks : RemovalAnswers → Proxy → Proxy
unfolding remove_rules
clear_signal_callbacks answers s = record s {
  filter = remove_rules answers (signal_rule s.target_unique_name s.opath) s.callbacks s.filter;
  callbacks = [];
}

abbrev pub is_success : Reply → Bool
is_success success = true
is_success (error name msg) = false
is_success (timed_out carried_out name msg) = false

abbrev pub removable : RemovalAnswers → String → Bool
removable answers q = answers.up q && is_success (answers.replies q)

unfoldable pub has_rule : (rule : String → String → String) → String → List Entry → Bool
has_rule rule q [] = false
has_rule rule q (e ∷ es) = str_eq (rule e.first e.second) q || has_rule rule q es

remove_match-contains :
    (up : Bool) (reply : Reply) (r q : String) (f : Filter)
    → contains q (remove_match up reply r f).0.match_rules
      ≡ (contains q f.match_rules && not (str_eq r q && (up && is_success reply)))
unfolding remove_match on_remove_reply
remove_match-contains false reply r q f = ground arith
remove_match-contains true success r q f = elim (Bool-cases (contains r f.match_rules)) [
  | inl h ↦ rw (h) (let e = contains-erase r q f.match_rules in ground arith)
  | inr h ↦ rw (h) (ground (arith, contains_same r q f.match_rules))
]
remove_match-contains true (error name msg) r q f = elim (Bool-cases (contains r f.match_rules)) [
  | inl h ↦ rw (h) (ground arith)
  | inr h ↦ rw (h) (ground arith)
]
remove_match-contains true (timed_out true name msg) r q f =
    elim (Bool-cases (contains r f.match_rules)) [
      | inl h ↦ rw (h) (ground arith)
      | inr h ↦ rw (h) (ground arith)
    ]
remove_match-contains true (timed_out false name msg) r q f =
    elim (Bool-cases (contains r f.match_rules)) [
      | inl h ↦ rw (h) (ground arith)
      | inr h ↦ rw (h) (ground arith)
    ]

one_more :
    (answers : RemovalAnswers) (c h : Bool) (r q : String)
    → ((c && not (str_eq r q && removable answers r)) && not (h && removable answers q))
      ≡ (c && not ((str_eq r q || h) && removable answers q))
one_more answers c h r q = elim (Bool-cases (str_eq r q)) [
  | inl e ↦ let k = ap (λ x. removable answers x) ((eq_iff r q).0 e) in rw (e) (ground arith)
  | inr e ↦ rw (e) (ground arith)
]

remove_rules-contains :
    (answers : RemovalAnswers) (rule : String → String → String) (q : String) (es : List Entry)
    (f : Filter)
    → contains q (remove_rules answers rule es f).match_rules
      ≡ (contains q f.match_rules && not (has_rule rule q es && removable answers q))
unfolding remove_rules has_rule
remove_rules-contains answers rule q [] f = ground arith
remove_rules-contains answers rule q (e ∷ es) f =
    let r = rule e.first e.second in
    let g = (remove_match (answers.up r) (answers.replies r) r f).0 in
    remove_rules-contains answers rule q es g
    ∙ rw (remove_match-contains (answers.up r) (answers.replies r) r q f)
        (one_more answers (contains q f.match_rules) (has_rule rule q es) r q)

-- Afterwards no callback is left, and of the match rules of the filter exactly those are gone that a
-- callback stood for and whose removal the bus accepted over an open connection.
clear_signal_callbacks-contains :
    (answers : RemovalAnswers) (s : Proxy) (q : String)
    → let t = clear_signal_callbacks answers s in
      ((i m : String) → find_callback i m t.callbacks ≡ none)
      × (contains q t.filter.match_rules ≡ (
          contains q s.filter.match_rules
          && not (
              has_rule (signal_rule s.target_unique_name s.opath) q s.callbacks
              && removable answers q)))
unfolding clear_signal_callbacks find_callback
clear_signal_callbacks-contains answers s q = (
  λ i m. refl,
  remove_rules-contains answers (signal_rule s.target_unique_name s.opath) q s.callbacks s.filter,
)
