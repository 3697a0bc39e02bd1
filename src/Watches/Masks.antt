-- ===== src/Watches/Masks.antt =====
-- The masks of the watches of one descriptor, joined, and what on_toggled_watch makes of them.
use libultrabus.Common.{
  ℕ, suc, ◌≡◌, ◌≢◌, refl, ap, ◌∙◌, none, some, [], ◌∷◌, ◌==◌, if◌then◌else◌, inl, inr, Bool-cases,
  ltb,
}
use libultrabus.Common.Maps.{Map, find, emplace, KeysFrom}
use libultrabus.Watches.Events.{
  EpollEvents, no_events, join, join_assoc, join_comm, join_step, join_absorb, join_left_comm,
}
use libultrabus.Watches.{join_masks, toggle_entries}

-- The events that some watch of the descriptor asks for.
abbrev pub join_all : Map EpollEvents → EpollEvents
join_all [] = no_events
join_all ((a, mask) ∷ m) = join mask (join_all m)

pub join_masks_lem :
    (acc : EpollEvents) (m : Map EpollEvents) → join_masks acc m ≡ join acc (join_all m)
unfolding join_masks
join_masks_lem acc [] = join_comm no_events acc
join_masks_lem acc ((a, mask) ∷ m) =
    join_masks_lem (join acc mask) m ∙ join_assoc acc mask (join_all m)

pub join_all-emplace :
    (a : ℕ) (e : EpollEvents) (m : Map EpollEvents)
    → find a m ≡ none
    → join_all (emplace a e m) ≡ join e (join_all m)
unfolding find emplace
join_all-emplace a e [] h = refl
join_all-emplace a e ((b, mask) ∷ m) h = elim (Bool-cases (b == a)) [
  | inl hit ↦ cc (rw hit at h)
  | inr miss ↦ rw miss (elim (Bool-cases (ltb a b)) [
    | inl before ↦ rw before
    | inr behind ↦ rw behind (
        ap (join mask) (join_all-emplace a e m (rw miss at h)) ∙ join_left_comm mask e (join_all m))
  ])
]

-- Together the masks that on_toggled_watch leaves are what it asks epoll for.
pub toggle_entries-fd_events :
    (a : ℕ) (acc : EpollEvents) (m : Map EpollEvents)
    → (toggle_entries a acc m).fd_events ≡ join acc (join_all (toggle_entries a acc m).entries)
unfolding toggle_entries
toggle_entries-fd_events a acc [] = join_comm no_events acc
toggle_entries-fd_events a acc ((b, mask) ∷ m) =
    let mask' = if b == a then acc else mask in
    toggle_entries-fd_events a (join acc mask') m ∙ join_assoc acc mask' _

pub toggle_entries_above :
    (a : ℕ) (acc : EpollEvents) (m : Map EpollEvents) (old : EpollEvents)
    → find a m ≡ some old
    → join acc (join_all (toggle_entries a acc m).entries)
      ≡ join_all (toggle_entries a acc m).entries
unfolding toggle_entries find
toggle_entries_above a acc [] old h = cc
toggle_entries_above a acc ((b, mask) ∷ m) old h = elim (Bool-cases (b == a)) [
  | inl hit ↦ rw hit (join_absorb acc _)
  | inr miss ↦
      rw miss (join_step acc mask _ (toggle_entries_above a (join acc mask) m old (rw miss at h)))
]

pub toggle_entries-KeysFrom :
    (a : ℕ) (acc : EpollEvents) (n : ℕ) (m : Map EpollEvents)
    → KeysFrom n m
    → KeysFrom n (toggle_entries a acc m).entries
unfolding toggle_entries
toggle_entries-KeysFrom a acc n [] k = tt
toggle_entries-KeysFrom a acc n ((b, mask) ∷ m) k =
    (k.0, toggle_entries-KeysFrom a (join acc (if b == a then acc else mask)) (suc b) m k.1)

pub toggle_entries-ne-nil :
    (a : ℕ) (acc : EpollEvents) (m : Map EpollEvents)
    → m ≢ []
    → (toggle_entries a acc m).entries ≢ []
unfolding toggle_entries
toggle_entries-ne-nil a acc [] h e = h refl
toggle_entries-ne-nil a acc ((b, mask) ∷ m) h e = cc
