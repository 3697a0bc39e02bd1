-- ===== src/Values/Dicts/Map.antt =====
-- The std::map of a dbus_dict, for keys in a strict order.
use libultrabus.Common.{true, false, List, [], ◌∷◌, some, ◌≡◌, ◌≢◌, arith}
use libultrabus.Values.{Value}
use libultrabus.Values.Dicts.{KeyClass, find, put}

-- operator<=> of the keys is a strict total order.
pub record IsOrder {K : Type 0} (c : KeyClass K) : Type 0 where
  pub irreflexive : (k : K) → c.less k k ≡ false
  pub transitive : (i j k : K) → c.less i j ≡ true → c.less j k ≡ true → c.less i k ≡ true
  pub total : (i j : K) → c.less i j ≡ false → c.less j i ≡ false → i ≡ j

module _ {K : Type 0} (c : KeyClass K) (o : IsOrder c) where
  pub find-put : (k : K) (v : Value) (m : List (K × Value)) → find c k (put c k v m) ≡ some v
  unfolding find put
  find-put k v [] = ground (arith, o.irreflexive k)
  find-put k v ((j, w) ∷ m) = ground (arith, o.irreflexive k, find-put k v m)

  asymmetric : (i j : K) → c.less i j ≡ true → c.less j i ≡ false
  asymmetric i j h = ground (arith, o.transitive i j i, o.irreflexive i)

  -- An entry under another key is not touched.
  pub find-put_other :
      (j k : K) (v : Value) (m : List (K × Value)) → j ≢ k → find c j (put c k v m) ≡ find c j m
  unfolding find put
  find-put_other j k v [] ne = ground (arith, o.total j k)
  find-put_other j k v ((i, w) ∷ m) ne = ground (
    arith,
    o.total j k,
    o.total i k,
    o.total i j,
    o.transitive j k i,
    asymmetric j i,
    find-put_other j k v m ne,
  )
