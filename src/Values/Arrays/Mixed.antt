-- ===== src/Values/Arrays/Mixed.antt =====
-- insert (const_iterator, InputIt, InputIt) of dbus_array: which ranges it should not take.
use libultrabus.Common.{
  refl, ℕ, zero, suc, List, [], ◌∷◌, ◌≡◌, ◌↔◌, sym, subst, true, false, Bool, same, insert_at,
}
use libultrabus.Values.{Value, ok, Libdbus, signature, ok_inj}
use libultrabus.Values.Typed.{IsTyped}
use libultrabus.Values.Arrays.{Array, freeze, element_signature, verified, insert_all, insert_range}
use libultrabus.Values.Arrays.Members.{Each, Each-insert_all, element_known}

module _ (lib : Libdbus) where
  inserted_member :
      (e : List ℕ) (i : ℕ) (v : Value) (xs : List Value)
      → Each lib e (insert_at i v xs)
      → (signature v ≡ e) × IsTyped lib v × Each lib e xs
  unfolding insert_at
  inserted_member e zero v xs h = h
  inserted_member e (suc i) v [] h = h
  inserted_member e (suc i) v (x ∷ xs) h =
      let (s, t, k) = inserted_member e i v xs h.2 in (s, t, (h.0, h.1, k))

  inserted_members :
      (e : List ℕ) (i : ℕ) (vs xs : List Value)
      → Each lib e (insert_all i vs xs)
      → Each lib e vs × Each lib e xs
  inserted_members e i [] xs h = (tt, h)
  inserted_members e i (v ∷ vs) xs h =
      let (later, k) = inserted_members e (suc i) vs (insert_at i v xs) h in
      let (s, t, earlier) = inserted_member e i v xs k in ((s, t, later), earlier)

  verified_members :
      (a : Array) {b : Array} (test : Bool) (change : List Value → List Value)
      → verified test change a ≡ ok b
      → (test ≡ true) × (record a { items = change a.items } ≡ b)
  verified_members a true change h = (refl, ok_inj h)
  verified_members a false change h = absurd (cc)

-- A range that dbus_array::insert has taken, because its first element has the signature of the
-- array's elements, leaves the array typed exactly when all its elements are typed and have the
-- signature of the first.
pub insert_range-IsTyped_iff :
    (lib : Libdbus) (a : Array) {b : Array} (pos : ℕ) (v : Value) (vs : List Value)
    → IsTyped lib (freeze a)
    → insert_range pos (v ∷ vs) a ≡ ok b
    → IsTyped lib (freeze b) ↔ Each lib (signature v) (v ∷ vs)
unfolding insert_range
insert_range-IsTyped_iff lib a {b} pos v vs (e, p, q, h) taken =
    let (t, same_array) =
      verified_members lib a (same (element_signature a) (signature v)) (insert_all pos (v ∷ vs))
        taken in
    let known = element_known lib a.sig (signature v) e t p in
    subst (λ w. IsTyped lib (freeze w) ↔ Each lib (signature v) (v ∷ vs)) same_array
      (
        λ (d, p', q', k).
            let inserted = (inserted_members lib d pos (v ∷ vs) a.items k).0 in
            subst (λ w. Each lib w (v ∷ vs)) (sym inserted.0) inserted,
        λ g. (
          e,
          p,
          q,
          Each-insert_all lib e pos (v ∷ vs) a.items (subst (λ w. Each lib w (v ∷ vs)) known g) h,
        ),
      )
