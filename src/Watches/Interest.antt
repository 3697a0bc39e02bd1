-- ===== src/Watches/Interest.antt =====
-- epoll is asked for exactly the events that the watches of a descriptor ask for together.
use libultrabus.Common.{
  ℕ, ◌≡◌, ◌≢◌, refl, sym, ap, ◌∙◌, Bool, true, false, Option, none, some, [], ◌∷◌, ◌==◌, ==_iff,
  if◌then◌else◌, arith, inl, inr, Bool-cases, Option-cases, subst,
}
use libultrabus.Common.Maps.{
  Map, find, emplace, erase, KeysFrom, emplace-KeysFrom, assign-KeysFrom, erase-KeysFrom,
  find-emplace, find-assign, find-erase, erase-emplace, emplace-ne-nil,
}
use libultrabus.Watches.Events.{EpollEvents, no_events, join, join_comm, join_absorb}
use libultrabus.Watches.Masks.{
  join_all, join_masks_lem, join_all-emplace, toggle_entries-fd_events, toggle_entries_above,
  toggle_entries-KeysFrom, toggle_entries-ne-nil,
}
use libultrabus.Watches.{
  Watch, Watches, no_watches, watch_events, join_masks, on_add_watch, on_remove_watch,
  toggle_entries, on_toggled_watch, add_first, add_more, remove_rest,
}

pub record IsEntries (m : Map EpollEvents) : Type 0 where
  pub ordered : KeysFrom 0 m
  pub occupied : m ≢ []

abbrev pub wanted : Option (Map EpollEvents) → Option EpollEvents
wanted none = none
wanted (some m) = some (join_all m)

pub record IsValid (s : Watches) : Type 0 where
  pub keys : KeysFrom 0 s.fd_map
  pub entries : (fd : ℕ) (m : Map EpollEvents) → find fd s.fd_map ≡ some m → IsEntries m
  pub asked : (fd : ℕ) → s.interest fd ≡ wanted (find fd s.fd_map)

-- A state that differs from a valid one at one descriptor, and is right there.
update-IsValid :
    (s t : Watches) (fd : ℕ) (r : Option (Map EpollEvents))
    → IsValid s
    → KeysFrom 0 t.fd_map
    → ((q : ℕ) → find q t.fd_map ≡ (if q == fd then r else find q s.fd_map))
    → ((q : ℕ) → t.interest q ≡ (if q == fd then wanted r else s.interest q))
    → ((m : Map EpollEvents) → r ≡ some m → IsEntries m)
    → IsValid t
update-IsValid s t fd r v keys reads asks fine = record {
  keys = keys;
  entries = λ q m h. elim (Bool-cases (q == fd)) [
    | inl here ↦ fine m (sym (reads q ∙ ap (λ b. if b then r else find q s.fd_map) here) ∙ h)
    | inr away ↦ v.entries q m (sym (reads q ∙ ap (λ b. if b then r else find q s.fd_map) away) ∙ h)
  ];
  asked = λ q. elim (Bool-cases (q == fd)) [
    | inl here ↦ rw (asks q, reads q, here)
    | inr away ↦ rw (asks q, reads q, away) (v.asked q)
  ];
}

-- libdbus adds a watch that it has not added already, and toggles one that it has added.
abbrev pub IsNew : Watch → Watches → Type 0
IsNew w s = (m : Map EpollEvents) → find w.fd s.fd_map ≡ some m → find w.address m ≡ none

pub record IsKnown (w : Watch) (s : Watches) : Type 0 where
  pub entries : Map EpollEvents
  pub mask : EpollEvents
  pub on_fd : find w.fd s.fd_map ≡ some entries
  pub listed : find w.address entries ≡ some mask

no_watches-IsValid : IsValid no_watches
unfolding find
no_watches-IsValid = record { keys = tt; entries = λ fd m h. cc; asked = λ fd. refl }

IsEntries-emplace :
    (a : ℕ) (e : EpollEvents) (m : Map EpollEvents) → KeysFrom 0 m → IsEntries (emplace a e m)
IsEntries-emplace a e m k = record {
  ordered = emplace-KeysFrom a e 0 m (omega arith) k;
  occupied = emplace-ne-nil a e m;
}

some_inj : (m n : Map EpollEvents) → some m ≡ some n → m ≡ n
some_inj m n e = cc

some_same : {m n : Map EpollEvents} → IsEntries m → some m ≡ some n → IsEntries n
some_same {m} {n} h e = subst IsEntries (some_inj m n e) h

module _ (w : Watch) (s : Watches) (v : IsValid s) where
  abbrev asked_at : ℕ → EpollEvents → Option EpollEvents
  asked_at q events = if q == w.fd then some events else s.interest q

  joined :
      (m : Map EpollEvents)
      → find w.address m ≡ none
      → join_masks (watch_events w) (emplace w.address (watch_events w) m)
        ≡ join_all (emplace w.address (watch_events w) m)
  joined m new =
      let e = watch_events w in
      let more = join_all-emplace w.address e m new in
      join_masks_lem e (emplace w.address e m)
      ∙ ap (join e) more
      ∙ join_absorb e (join_all m)
      ∙ sym more

  asked_same :
      (q : ℕ) (m : Map EpollEvents)
      → find w.fd s.fd_map ≡ some m
      → s.interest q ≡ asked_at q (join_all m)
  asked_same q m e = elim (Bool-cases (q == w.fd)) [
    | inl here ↦ rw (here, (==_iff q w.fd).0 here, v.asked w.fd, e)
    | inr away ↦ rw away
  ]

  add_first-IsValid : (ok : Bool) → find w.fd s.fd_map ≡ none → IsValid (add_first ok w s).0
  unfolding emplace
  add_first-IsValid true e =
      update-IsValid s _ w.fd (some (emplace w.address (watch_events w) [])) v
        (emplace-KeysFrom w.fd _ 0 s.fd_map (omega arith) v.keys)
        (λ q. rw (find-emplace w.fd _ q 0 s.fd_map v.keys, e))
        (λ q. ap (asked_at q) (join_comm no_events (watch_events w)))
        (λ m. some_same (IsEntries-emplace w.address (watch_events w) [] tt))
  add_first-IsValid false e =
      rw (erase-emplace w.fd (emplace w.address (watch_events w) []) 0 s.fd_map v.keys e) v

  add_more-IsValid :
      (ok : Bool) (m : Map EpollEvents)
      → find w.fd s.fd_map ≡ some m
      → find w.address m ≡ none
      → IsValid (add_more ok w m s).0
  add_more-IsValid true m e new =
      update-IsValid s _ w.fd (some (emplace w.address (watch_events w) m)) v
        (assign-KeysFrom w.fd _ 0 s.fd_map v.keys) (λ q. find-assign w.fd _ q s.fd_map m e)
        (λ q. ap (asked_at q) (joined m new))
        (λ n.
          some_same (IsEntries-emplace w.address (watch_events w) m (v.entries w.fd m e).ordered))
  add_more-IsValid false m e new =
      rw (erase-emplace w.address (watch_events w) 0 m (v.entries w.fd m e).ordered new) (
        update-IsValid s _ w.fd (some m) v (assign-KeysFrom w.fd _ 0 s.fd_map v.keys)
          (λ q. find-assign w.fd _ q s.fd_map m e) (λ q. asked_same q m e)
          (λ n. some_same (v.entries w.fd m e)))

  -- Whether epoll takes the request or not, the addition of a new watch keeps the state valid.
  pub on_add_watch-IsValid : (ok : Bool) → IsNew w s → IsValid (on_add_watch ok w s).0
  unfolding on_add_watch
  on_add_watch-IsValid ok new = elim (Option-cases (find w.fd s.fd_map)) [
    | inl e ↦ rw (e, on_add_watch) (add_first-IsValid ok e)
    | inr (m, e) ↦ rw (e, on_add_watch) (add_more-IsValid ok m e (new m e))
  ]

  remove_rest-IsValid :
      (m : Map EpollEvents) (rest : Map EpollEvents)
      → find w.fd s.fd_map ≡ some m
      → KeysFrom 0 rest
      → IsValid (remove_rest true w.fd rest s)
  remove_rest-IsValid m [] e k =
      update-IsValid s _ w.fd none v (erase-KeysFrom w.fd 0 s.fd_map v.keys)
        (λ q. find-erase w.fd q 0 s.fd_map v.keys) (λ q. refl) (λ n h. cc)
  remove_rest-IsValid m (x ∷ rest) e k =
      update-IsValid s _ w.fd (some (x ∷ rest)) v (assign-KeysFrom w.fd _ 0 s.fd_map v.keys)
        (λ q. find-assign w.fd _ q s.fd_map m e)
        (λ q. ap (asked_at q) (join_masks_lem no_events (x ∷ rest)))
        (λ n. some_same (record { ordered = k; occupied = λ h. cc }))

  pub on_remove_watch-IsValid : IsValid (on_remove_watch true w s)
  unfolding on_remove_watch
  on_remove_watch-IsValid = elim (Option-cases (find w.fd s.fd_map)) [
    | inl e ↦ rw (e, on_remove_watch) v
    | inr (m, e) ↦
        rw (e, on_remove_watch)
          (remove_rest-IsValid m (erase w.address m) e
            (erase-KeysFrom w.address 0 m (v.entries w.fd m e).ordered))
  ]

  toggled_join :
      (m : Map EpollEvents) (mask : EpollEvents)
      → find w.address m ≡ some mask
      → (toggle_entries w.address (watch_events w) m).fd_events
        ≡ join_all (toggle_entries w.address (watch_events w) m).entries
  toggled_join m mask h =
      toggle_entries-fd_events w.address (watch_events w) m
      ∙ toggle_entries_above w.address (watch_events w) m mask h

  pub on_toggled_watch-IsValid : IsKnown w s → IsValid (on_toggled_watch true w s)
  unfolding on_toggled_watch
  on_toggled_watch-IsValid known =
      let m = known.entries in
      let old = v.entries w.fd m known.on_fd in
      rw (known.on_fd, on_toggled_watch)
        (update-IsValid s _ w.fd (some (toggle_entries w.address (watch_events w) m).entries) v
          (assign-KeysFrom w.fd _ 0 s.fd_map v.keys)
          (λ q. find-assign w.fd _ q s.fd_map m known.on_fd)
          (λ q. ap (asked_at q) (toggled_join m known.mask known.listed))
          (λ n. some_same (record {
            ordered = toggle_entries-KeysFrom w.address _ 0 m old.ordered;
            occupied = toggle_entries-ne-nil w.address _ m old.occupied;
          })))

-- What libdbus does to the watches. An addition may be refused by epoll; changes of a descriptor
-- that epoll knows are taken.
pub data Step : Watches → Watches → Type 0 where
  add :
      {s : Watches} (epoll_ok : Bool) (w : Watch) → IsNew w s → Step s (on_add_watch epoll_ok w s).0
  remove : {s : Watches} (w : Watch) → Step s (on_remove_watch true w s)
  toggle : {s : Watches} (w : Watch) → IsKnown w s → Step s (on_toggled_watch true w s)

pub data Reach : Watches → Type 0 where
  start : Reach no_watches
  later : {s t : Watches} → Reach s → Step s t → Reach t

Step-IsValid : {s t : Watches} → Step s t → IsValid s → IsValid t
Step-IsValid {s} (add ok w new) v = on_add_watch-IsValid w s v ok new
Step-IsValid {s} (remove w) v = on_remove_watch-IsValid w s v
Step-IsValid {s} (toggle w known) v = on_toggled_watch-IsValid w s v known

-- After any sequence of additions of watches that are not there, removals, and toggles of watches
-- that are there, from an empty map: every descriptor in `fd_map` has at least one watch, and for
-- each descriptor the last request to epoll that succeeded asks for exactly the joined masks of its
-- watches, or is EPOLL_CTL_DEL (or none was made) if it has none. Additions that epoll refuses are
-- included; requests that change or delete are taken to succeed.
pub Reach-interest : {s : Watches} → Reach s → IsValid s
Reach-interest start = no_watches-IsValid
Reach-interest (later r st) = Step-IsValid st (Reach-interest r)
