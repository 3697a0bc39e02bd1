-- ===== src/Values/Structs/Signature.antt =====
-- The signature of a dbus_struct against its attributes.
use libultrabus.Common.{
  drop_char, drop_char-append, ℕ, zero, suc, List, [], ◌∷◌, ◌++◌, none, some, ◌≡◌, refl, ap, ◌∙◌,
  ltb, if_intro, erase_at, length, append_assoc, append-nil, Bool, true, false, ◌||◌, arith,
}
use libultrabus.Values.{Text, Basic, Value, Values, Libdbus, signature, of_list, to_list}
use libultrabus.Values.Typed.{signatures, IsTyped, AllTyped}
use libultrabus.Values.Structs.{
  Struct, freeze, new_struct, add_attrib_signature, update_signature, add, Operation, run, run_all,
  add_op, add_moved_op, add_pointer_op, add_text_op, remove_op, update_signature_op, assign_op,
  get_op, change_at,
}

signatures-append :
    (xs : List Value) (v : Value)
    → signatures (of_list (xs ++ v ∷ [])) ≡ signatures (of_list xs) ++ signature v
signatures-append [] v = simp (append-nil)
signatures-append (x ∷ xs) v = simp (signatures-append xs v, append_assoc)

pub add_attrib_signature-signatures :
    (sig : List ℕ) (xs : List Value) (v : Value)
    → sig ≡ b'(' ∷ (signatures (of_list xs) ++ b')' ∷ [])
    → add_attrib_signature v sig ≡ b'(' ∷ (signatures (of_list (xs ++ v ∷ [])) ++ b')' ∷ [])
unfolding add_attrib_signature
add_attrib_signature-signatures sig xs v p =
    let kept = ap drop_char p ∙ drop_char-append (b'(' ∷ signatures (of_list xs)) b')' in
    rw (kept, signatures-append xs v, append_assoc)

abbrev pub is_get : Operation → Bool
is_get (get_op pos v) = true
is_get _ = false

abbrev pub any_get : List Operation → Bool
any_get [] = false
any_get (op ∷ ops) = is_get op || any_get ops

module _ (lib : Libdbus) where
  abbrev All : List Value → Type 0
  All xs = AllTyped lib (of_list xs)

  All-append : (v : Value) (xs : List Value) → IsTyped lib v → All xs → All (xs ++ v ∷ [])
  All-append v [] t h = (t, tt)
  All-append v (x ∷ xs) t h = (h.0, All-append v xs t h.1)

  All-erase_at : (i : ℕ) (xs : List Value) → All xs → All (erase_at i xs)
  unfolding erase_at
  All-erase_at i [] h = tt
  All-erase_at zero (x ∷ xs) h = h.1
  All-erase_at (suc i) (x ∷ xs) h = (h.0, All-erase_at i xs h.1)

  All-change_at :
      (i : ℕ) (v : Value) (xs : List Value) → IsTyped lib v → All xs → All (change_at i v xs)
  unfolding change_at
  All-change_at i v [] t h = tt
  All-change_at zero v (x ∷ xs) t h = (t, h.1)
  All-change_at (suc i) v (x ∷ xs) t h = (h.0, All-change_at i v xs t h.1)

  pub of_list-to_list : (xs : Values) → of_list (to_list xs) ≡ xs
  of_list-to_list Values.nil = refl
  of_list-to_list (Values.cons x xs) = ap (Values.cons x) (of_list-to_list xs)

  updated-IsTyped : (s : Struct) → All s.items → IsTyped lib (freeze (update_signature s))
  unfolding update_signature
  updated-IsTyped s h = (refl, h)

  add-IsTyped :
      (v : Value) (s : Struct)
      → IsTyped lib v
      → IsTyped lib (freeze s)
      → IsTyped lib (freeze (add v s))
  unfolding add add_attrib_signature
  add-IsTyped v s t (p, h) =
      (add_attrib_signature-signatures s.sig s.items v p, All-append v s.items t h)

  -- The arguments of a call are typed.
  abbrev pub Fits : Operation → Type 0
  Fits (add_op v) = IsTyped lib v
  Fits (add_moved_op v) = IsTyped lib v
  Fits (add_pointer_op none) = Unit {0}
  Fits (add_pointer_op (some v)) = IsTyped lib v
  Fits (get_op pos v) = IsTyped lib v
  Fits (assign_op v) = IsTyped lib v
  Fits _ = Unit {0}

  run-IsTyped :
      (op : Operation) (s : Struct)
      → Fits op
      → is_get op ≡ false
      → IsTyped lib (freeze s)
      → IsTyped lib (freeze (run op s))
  unfolding run
  run-IsTyped (add_op v) s f g h = add-IsTyped v s f h
  run-IsTyped (add_moved_op v) s f g h = updated-IsTyped (add v s) (add-IsTyped v s f h).1
  run-IsTyped (add_pointer_op none) s f g h = h
  run-IsTyped (add_pointer_op (some v)) s f g h = add-IsTyped v s f h
  run-IsTyped (add_text_op none) s f g h = h
  run-IsTyped (add_text_op (some t)) s f g h =
      add-IsTyped (Value.basic (Basic.text Text.string t)) s tt h
  run-IsTyped (remove_op pos) s f g h =
      if_intro (λ u. IsTyped lib (freeze u)) (ltb pos (length s.items))
        (λ e.
          updated-IsTyped (record s { items = erase_at pos s.items })
            (All-erase_at pos s.items h.1))
        (λ e. h)
  run-IsTyped (get_op pos v) s f g h = cc g
  run-IsTyped update_signature_op s f g h = updated-IsTyped s h.1
  run-IsTyped (assign_op (Value.struct sig xs)) s f g h = rw (of_list-to_list xs) f
  run-IsTyped (assign_op (Value.basic b)) s f g h = h
  run-IsTyped (assign_op (Value.array sig xs)) s f g h = h
  run-IsTyped (assign_op (Value.dict sig es)) s f g h = h
  run-IsTyped (assign_op (Value.variant v)) s f g h = h

  -- The attributes stay typed whatever the call is.
  run-All : (op : Operation) (s : Struct) → Fits op → All s.items → All (run op s).items
  unfolding run
  run-All (add_op v) s f h = All-append v s.items f h
  run-All (add_moved_op v) s f h = All-append v s.items f h
  run-All (add_pointer_op none) s f h = h
  run-All (add_pointer_op (some v)) s f h = All-append v s.items f h
  run-All (add_text_op none) s f h = h
  run-All (add_text_op (some t)) s f h =
      All-append (Value.basic (Basic.text Text.string t)) s.items tt h
  run-All (remove_op pos) s f h =
      if_intro (λ (u : Struct). All u.items) (ltb pos (length s.items))
        (λ e. All-erase_at pos s.items h) (λ e. h)
  run-All (get_op pos v) s f h = All-change_at pos v s.items f h
  run-All update_signature_op s f h = h
  run-All (assign_op (Value.struct sig xs)) s f h = rw (of_list-to_list xs) f.1
  run-All (assign_op (Value.basic b)) s f h = h
  run-All (assign_op (Value.array sig xs)) s f h = h
  run-All (assign_op (Value.dict sig es)) s f h = h
  run-All (assign_op (Value.variant v)) s f h = h

  abbrev pub AllFit : List Operation → Type 0
  AllFit [] = Unit {0}
  AllFit (op ∷ ops) = Fits op × AllFit ops

  run_all-IsTyped :
      (ops : List Operation) (s : Struct)
      → AllFit ops
      → any_get ops ≡ false
      → IsTyped lib (freeze s)
      → IsTyped lib (freeze (run_all ops s))
  unfolding run_all
  run_all-IsTyped [] s f g h = h
  run_all-IsTyped (op ∷ ops) s f g h =
      run_all-IsTyped ops (run op s) f.1 (ground arith) (run-IsTyped op s f.0 (ground arith) h)

  run_all-All :
      (ops : List Operation) (s : Struct) → AllFit ops → All s.items → All (run_all ops s).items
  unfolding run_all
  run_all-All [] s f h = h
  run_all-All (op ∷ ops) s f h = run_all-All ops (run op s) f.1 (run-All op s f.0 h)

-- A dbus_struct that was made empty, after any sequence of calls of add, remove, update_signature
-- and operator=, with typed arguments other than the struct itself, and of changes of an attribute to
-- another typed value through the reference that get returns. If there was no such change, its
-- signature, which adding an attribute only extends and an assignment only copies, is the one that
-- update_signature computes from the attributes. In any case each attribute is typed, and the struct
-- is after another call of update_signature.
pub run_all-update_signature :
    (lib : Libdbus) (ops : List Operation)
    → AllFit lib ops
    → (any_get ops ≡ false
        → (run_all ops new_struct).sig ≡ (update_signature (run_all ops new_struct)).sig)
      × AllTyped lib (of_list (run_all ops new_struct).items)
      × IsTyped lib (freeze (update_signature (run_all ops new_struct)))
unfolding update_signature
run_all-update_signature lib ops f =
    let typed = run_all-All lib ops new_struct f tt in
    (
      λ g. (run_all-IsTyped lib ops new_struct f g (refl, tt)).0,
      typed,
      updated-IsTyped lib (run_all ops new_struct) typed,
    )
