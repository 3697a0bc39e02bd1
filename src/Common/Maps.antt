-- ===== src/Common/Maps.antt =====
-- std::map with numbers for keys (addresses, file descriptors), as a list in the order of the keys.
use libultrabus.Common.Tests.{ltb, ◌==◌, if◌then◌else◌}
use Prim.Native.Nat.{ℕ, suc, ◌≤◌, ◌<◌}
use mathlib.Core.Path.{◌≡◌, refl}
use mathlib.Core.Option.{Option, none, some}
use mathlib.Core.List.{List, [], ◌∷◌}
use native.Mathlib.Omega.{arith}

abbrev pub Map {ℓ} : Type ℓ → Type ℓ
Map V = List (ℕ × V)

abbrev pub or_some {ℓ} : {A : Type ℓ} → Option A → A → Option A
or_some none a = some a
or_some (some b) a = some b

module _ {ℓ} {V : Type ℓ} where
  unfoldable pub find : ℕ → Map V → Option V
  find k [] = none
  find k ((j, v) ∷ m) = if j == k then some v else find k m

  -- `emplace` leaves an entry that is there.
  unfoldable pub emplace : ℕ → V → Map V → Map V
  emplace k v [] = (k, v) ∷ []
  emplace k v ((j, w) ∷ m) =
      if j == k then (j, w) ∷ m else if ltb k j then (k, v) ∷ (j, w) ∷ m else (j, w) ∷ emplace k v m

  -- A write through an iterator; no effect where the key is absent.
  unfoldable pub assign : ℕ → V → Map V → Map V
  assign k v [] = []
  assign k v ((j, w) ∷ m) = if j == k then (j, v) ∷ m else (j, w) ∷ assign k v m

  unfoldable pub erase : ℕ → Map V → Map V
  erase k [] = []
  erase k ((j, w) ∷ m) = if j == k then m else (j, w) ∷ erase k m

  -- Keys strictly increase, from `n` on.
  abbrev pub KeysFrom : ℕ → Map V → Type 0
  KeysFrom n [] = Unit {0}
  KeysFrom n ((j, w) ∷ m) = (n ≤ j) × KeysFrom (suc j) m

  pub KeysFrom-mono : (i n : ℕ) (m : Map V) → i ≤ n → KeysFrom n m → KeysFrom i m
  KeysFrom-mono i n [] h a = tt
  KeysFrom-mono i n ((j, w) ∷ m) h a = (omega arith, a.1)

  pub find_below : (k n : ℕ) (m : Map V) → KeysFrom n m → k < n → find k m ≡ none
  unfolding find
  find_below k n [] a h = refl
  find_below k n ((j, w) ∷ m) a h = ground (arith, find_below k (suc j) m a.1)

  pub emplace-KeysFrom :
      (k : ℕ) (v : V) (n : ℕ) (m : Map V) → n ≤ k → KeysFrom n m → KeysFrom n (emplace k v m)
  unfolding emplace
  emplace-KeysFrom k v n [] h a = (h, tt)
  emplace-KeysFrom k v n ((j, w) ∷ m) h a = ground (arith, emplace-KeysFrom k v (suc j) m)

  pub assign-KeysFrom :
      (k : ℕ) (v : V) (n : ℕ) (m : Map V) → KeysFrom n m → KeysFrom n (assign k v m)
  unfolding assign
  assign-KeysFrom k v n [] a = tt
  assign-KeysFrom k v n ((j, w) ∷ m) a = ground (arith, assign-KeysFrom k v (suc j) m a.1)

  pub erase-KeysFrom : (k n : ℕ) (m : Map V) → KeysFrom n m → KeysFrom n (erase k m)
  unfolding erase
  erase-KeysFrom k n [] a = tt
  erase-KeysFrom k n ((j, w) ∷ m) a =
      ground (arith, erase-KeysFrom k (suc j) m a.1, KeysFrom-mono n (suc j) m)

  pub find-emplace :
      (k : ℕ) (v : V) (q n : ℕ) (m : Map V)
      → KeysFrom n m
      → find q (emplace k v m) ≡ (if q == k then or_some (find k m) v else find q m)
  unfolding find emplace
  find-emplace k v q n [] a = ground arith
  find-emplace k v q n ((j, w) ∷ m) a =
      ground (arith, find-emplace k v q (suc j) m a.1, find_below k (suc j) m a.1)

  pub find-assign :
      (k : ℕ) (v : V) (q : ℕ) (m : Map V) (old : V)
      → find k m ≡ some old
      → find q (assign k v m) ≡ (if q == k then some v else find q m)
  unfolding find assign
  find-assign k v q [] old h = ground arith
  find-assign k v q ((j, w) ∷ m) old h = ground (arith, find-assign k v q m old)

  pub find-erase :
      (k q n : ℕ) (m : Map V)
      → KeysFrom n m
      → find q (erase k m) ≡ (if q == k then none else find q m)
  unfolding find erase
  find-erase k q n [] a = ground arith
  find-erase k q n ((j, w) ∷ m) a =
      ground (arith, find-erase k q (suc j) m a.1, find_below k (suc j) m a.1)

  -- An entry that was not there is taken back by `erase`.
  pub erase-emplace :
      (k : ℕ) (v : V) (n : ℕ) (m : Map V)
      → KeysFrom n m
      → find k m ≡ none
      → erase k (emplace k v m) ≡ m
  unfolding find emplace erase
  erase-emplace k v n [] a h = ground arith
  erase-emplace k v n ((j, w) ∷ m) a h = ground (arith, erase-emplace k v (suc j) m a.1)

  pub emplace-ne-nil : (k : ℕ) (v : V) (m : Map V) → emplace k v m ≡ [] → ⊥
  unfolding emplace
  emplace-ne-nil k v [] e = cc
  emplace-ne-nil k v ((j, w) ∷ m) e = ground arith
