-- ===== src/Matches/Synced.antt =====
-- The rules of a filter against those that the bus holds.
use Prim.Native.String.{String}
use text.Mathlib.Text.{◌==◌ as str_eq}
use libultrabus.Common.{
  ℕ, ◌+◌, ◌-◌, ◌≡◌, refl, Bool, true, false, some, List, if◌then◌else◌, if_intro, arith,
}
use libultrabus.Matches.{
  Request, add_rule, remove_rule, requested, Filter, new_filter, Reply, success, error, timed_out,
  say, on_add_reply, on_remove_reply, add_match, remove_match, add_match_async, remove_match_async,
  held, sent_if,
}
use libultrabus.Retvalue.{Retvalue}
use libultrabus.Matches.Rules.{
  contains, contains_same, emplace, erase, contains-emplace, contains-erase,
}

-- The reply tells what the bus has done.
abbrev pub is_told : Reply → Bool
is_told success = true
is_told (error name msg) = true
is_told (timed_out carried_out name msg) = false

abbrev pub one_if : Bool → ℕ
one_if true = 1
one_if false = 0

-- The bus holds a rule once if the filter has it, else not at all.
pub record IsSynced (f : Filter) : Type 0 where
  pub same : (q : String) → held q f.log ≡ one_if (contains q f.match_rules)

held_added :
    (r q : String) (rs : List String) (n : ℕ)
    → contains r rs ≡ false
    → n ≡ one_if (contains q rs)
    → (if str_eq r q then n + 1 else n) ≡ one_if (contains q (emplace r rs))
held_added r q rs n e h = ground (arith, contains_same r q rs, contains-emplace r q rs)

held_removed :
    (r q : String) (rs : List String) (n : ℕ)
    → n ≡ one_if (contains q rs)
    → (if str_eq r q then n - 1 else n) ≡ one_if (contains q (erase r rs))
held_removed r q rs n h = ground (arith, contains-erase r q rs)

on_add_reply-IsSynced :
    (rule : String) (reply : Reply) (f : Filter)
    → contains rule f.match_rules ≡ false
    → is_told reply ≡ true
    → IsSynced f
    → IsSynced (on_add_reply rule reply f).0
unfolding on_add_reply held
on_add_reply-IsSynced rule success f e k v = record {
  same = λ q. held_added rule q f.match_rules _ e (v.same q);
}
on_add_reply-IsSynced rule (error name msg) f e k v = v
on_add_reply-IsSynced rule (timed_out c name msg) f e k v = cc k

on_remove_reply-IsSynced :
    (rule : String) (reply : Reply) (f : Filter)
    → is_told reply ≡ true
    → IsSynced f
    → IsSynced (on_remove_reply rule reply f).0
unfolding on_remove_reply held
on_remove_reply-IsSynced rule success f k v = record {
  same = λ q. held_removed rule q f.match_rules _ (v.same q);
}
on_remove_reply-IsSynced rule (error name msg) f k v = v
on_remove_reply-IsSynced rule (timed_out c name msg) f k v = cc k

requested-IsSynced :
    (k : Request) (rule : String) (f : Filter) → IsSynced f → IsSynced (say (requested k rule) f)
unfolding held
requested-IsSynced k rule f v = record { same = v.same }

add_match-IsSynced :
    (conn_up : Bool) (reply : Reply) (rule : String) (f : Filter)
    → is_told reply ≡ true
    → IsSynced f
    → IsSynced (add_match conn_up reply rule f).0
unfolding add_match
add_match-IsSynced conn_up reply rule f k v =
    if_intro (λ (r : Filter × Retvalue Bool). IsSynced r.0) conn_up
      (λ _.
        if_intro (λ (r : Filter × Retvalue Bool). IsSynced r.0) (contains rule f.match_rules)
          (λ _. v)
          (λ e. on_add_reply-IsSynced rule reply _ e k (requested-IsSynced add_rule rule f v)))
      (λ _. v)

remove_match-IsSynced :
    (conn_up : Bool) (reply : Reply) (rule : String) (f : Filter)
    → is_told reply ≡ true
    → IsSynced f
    → IsSynced (remove_match conn_up reply rule f).0
unfolding remove_match
remove_match-IsSynced conn_up reply rule f k v =
    if_intro (λ (r : Filter × Retvalue Bool). IsSynced r.0) conn_up
      (λ _.
        if_intro (λ (r : Filter × Retvalue Bool). IsSynced r.0) (contains rule f.match_rules)
          (λ _. on_remove_reply-IsSynced rule reply _ k (requested-IsSynced remove_rule rule f v))
          (λ _. v))
      (λ _. v)

sent_if-IsSynced :
    (sends : Bool) (k : Request) (rule : String) (f : Filter)
    → IsSynced f
    → IsSynced (sent_if sends (requested k rule) f)
sent_if-IsSynced true k rule f v = requested-IsSynced k rule f v
sent_if-IsSynced false k rule f v = v

-- With a callback, nothing changes until the reply.
add_match_async-IsSynced :
    (conn_up sends : Bool) (cb : ℕ) (rule : String) (f : Filter)
    → IsSynced f
    → IsSynced (add_match_async conn_up sends (some cb) rule f).0
unfolding add_match_async
add_match_async-IsSynced conn_up sends cb rule f v =
    if_intro (λ (r : Filter × Bool). IsSynced r.0) conn_up
      (λ _.
        if_intro (λ (r : Filter × Bool). IsSynced r.0) (contains rule f.match_rules) (λ _. v)
          (λ _. sent_if-IsSynced sends add_rule rule f v))
      (λ _. v)

remove_match_async-IsSynced :
    (conn_up sends : Bool) (cb : ℕ) (rule : String) (f : Filter)
    → IsSynced f
    → IsSynced (remove_match_async conn_up sends (some cb) rule f).0
unfolding remove_match_async
remove_match_async-IsSynced conn_up sends cb rule f v =
    if_intro (λ (r : Filter × Bool). IsSynced r.0) conn_up
      (λ _.
        if_intro (λ (r : Filter × Bool). IsSynced r.0) (contains rule f.match_rules)
          (λ _. sent_if-IsSynced sends remove_rule rule f v) (λ _. v))
      (λ _. v)

-- The calls that learn what the bus did. The reply to an asynchronous add finds the rule absent:
-- no other add of the same rule has been accepted since.
pub data Step (f : Filter) : Filter → Type 0 where
  adds :
      (conn_up : Bool) (reply : Reply) (rule : String)
      → is_told reply ≡ true
      → Step f (add_match conn_up reply rule f).0
  removes :
      (conn_up : Bool) (reply : Reply) (rule : String)
      → is_told reply ≡ true
      → Step f (remove_match conn_up reply rule f).0
  asks_add :
      (conn_up sends : Bool) (cb : ℕ) (rule : String)
      → Step f (add_match_async conn_up sends (some cb) rule f).0
  asks_remove :
      (conn_up sends : Bool) (cb : ℕ) (rule : String)
      → Step f (remove_match_async conn_up sends (some cb) rule f).0
  add_replies :
      (rule : String) (reply : Reply)
      → contains rule f.match_rules ≡ false
      → is_told reply ≡ true
      → Step f (on_add_reply rule reply f).0
  remove_replies :
      (rule : String) (reply : Reply)
      → is_told reply ≡ true
      → Step f (on_remove_reply rule reply f).0

pub data Reach : Filter → Type 0 where
  start : Reach new_filter
  later : {f g : Filter} → Reach f → Step f g → Reach g

Step-IsSynced : {f g : Filter} → Step f g → IsSynced f → IsSynced g
Step-IsSynced {f} (adds u reply rule k) v = add_match-IsSynced u reply rule f k v
Step-IsSynced {f} (removes u reply rule k) v = remove_match-IsSynced u reply rule f k v
Step-IsSynced {f} (asks_add u s cb rule) v = add_match_async-IsSynced u s cb rule f v
Step-IsSynced {f} (asks_remove u s cb rule) v = remove_match_async-IsSynced u s cb rule f v
Step-IsSynced {f} (add_replies rule reply e k) v = on_add_reply-IsSynced rule reply f e k v
Step-IsSynced {f} (remove_replies rule reply k) v = on_remove_reply-IsSynced rule reply f k v

-- After any sequence of synchronous calls of add_match and remove_match, and of asynchronous ones
-- with a callback and their replies, the bus holds a rule for this connection exactly once if the
-- filter has it in `match_rules`, and not at all otherwise, where a request counts as carried out by
-- the bus when its reply is handled. The calls may fail in every way but one: no reply is missing for
-- a timeout or a lost connection. The connection stays open, and a reply to an asynchronous add of a
-- rule that has been added since is left out.
pub Reach-IsSynced : {f : Filter} → Reach f → IsSynced f
unfolding held contains
Reach-IsSynced start = record { same = λ q. refl }
Reach-IsSynced (later r st) = Step-IsSynced st (Reach-IsSynced r)
