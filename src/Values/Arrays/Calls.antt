-- ===== src/Values/Arrays/Calls.antt =====
-- The calls of a dbus_array against its signature.
use libultrabus.Common.{
  ℕ, Bool, true, false, List, [], ◌∷◌, ◌++◌, Option, none, some, ◌≡◌, refl, sym, ◌∙◌, ◌==◌, same,
  insert_at, erase_at, erase_range, inl, inr, subst,
}
use libultrabus.Values.{
  Result-cases, Text, Basic, Value, Libdbus, signature, code, char_at, make_text,
}
use libultrabus.Values.Typed.{IsTyped, IsTypedBasic, Laws, is_basic_code}
use libultrabus.Values.Arrays.{
  Array, freeze, element_signature, verified, text_of_code, insert_as, assign_as, insert_times,
  insert_all, drop_last, emplace_all, basics, insert_texts_as, insert_each, after, Operation, run,
  run_all, push_back_op, push_pointer_op, push_basic_op, push_text_op, insert_op, insert_basic_op,
  insert_text_op, insert_count_op, insert_range_op, insert_basics_op, insert_texts_op,
  assign_basics_op, pop_back_op, erase_op, erase_some_op, clear_op, assign_op, assign_texts_op,
}
use libultrabus.Values.Arrays.Members.{
  Each, Each-append, Each-insert_at, Each-insert_times, Each-insert_all, Each-erase_at,
  Each-erase_range, Each-drop_last, Each-to_list, make_text-IsTyped, emplace_all-Each,
  insert_texts_as-Each, element_known, basic_known, text_known,
}

module _ (lib : Libdbus) where
  -- The arguments of a call: values that are typed, and a range whose elements have one signature.
  abbrev pub Fits : Operation → Type 0
  Fits (push_back_op v) = IsTyped lib v
  Fits (push_pointer_op none) = Unit {0}
  Fits (push_pointer_op (some v)) = IsTyped lib v
  Fits (push_basic_op b) = (is_basic_code (code b) ≡ true) × IsTypedBasic lib b
  Fits (insert_op i v) = IsTyped lib v
  Fits (insert_basic_op i b) = (is_basic_code (code b) ≡ true) × IsTypedBasic lib b
  Fits (insert_count_op i n v) = IsTyped lib v
  Fits (insert_range_op i []) = Unit {0}
  Fits (insert_range_op i (v ∷ vs)) = Each lib (signature v) (v ∷ vs)
  Fits (insert_basics_op i c bs) = (is_basic_code c ≡ true) × Each lib (c ∷ []) (basics bs)
  Fits (assign_op v) = IsTyped lib v
  Fits (assign_basics_op c bs) =
      (lib.valid_single (b'a' ∷ c ∷ []) ≡ true) × Each lib (c ∷ []) (basics bs)
  Fits _ = Unit {0}

  -- A change that is made only after the signature has been verified.
  verified-IsTyped :
      (a : Array) (test : Bool) (change : List Value → List Value)
      → IsTyped lib (freeze a)
      → ((e : List ℕ)
          → test ≡ true
          → a.sig ≡ b'a' ∷ e
          → Each lib e a.items
          → Each lib e (change a.items))
      → IsTyped lib (freeze (after (verified test change a) a))
  verified-IsTyped a true change (e, p, q, h) k = (e, p, q, k e refl p h)
  verified-IsTyped a false change h k = h

  changed-IsTyped :
      (a : Array) (change : List Value → List Value)
      → IsTyped lib (freeze a)
      → ((e : List ℕ) → Each lib e a.items → Each lib e (change a.items))
      → IsTyped lib (freeze (record a { items = change a.items }))
  changed-IsTyped a change (e, p, q, h) k = (e, p, q, k e h)

  value-IsTyped :
      (a : Array) (v : Value) (change : List Value → List Value)
      → ((e : List ℕ) (xs : List Value) → signature v ≡ e → Each lib e xs → Each lib e (change xs))
      → IsTyped lib (freeze a)
      → IsTyped lib
          (freeze (after (verified (same (element_signature a) (signature v)) change a) a))
  value-IsTyped a v change keep h =
      verified-IsTyped a _ change h
        (λ e t p k. keep e a.items (element_known lib a.sig (signature v) e t p) k)

  module _ (laws : Laws lib) where
    basic-IsTyped :
        (a : Array) (b : Basic) (change : List Value → List Value)
        → is_basic_code (code b) ≡ true
        → ((e : List ℕ) (xs : List Value)
            → code b ∷ [] ≡ e
            → Each lib e xs
            → Each lib e (change xs))
        → IsTyped lib (freeze a)
        → IsTyped lib (freeze (after (verified (char_at a.sig 1 == code b) change a) a))
    basic-IsTyped a b change known keep h =
        verified-IsTyped a _ change h
          (λ e t p k. keep e a.items (basic_known lib laws a.sig (code b) e known t p h.2) k)

    insert_as-IsTyped :
        (a : Array) (o : Option Text) (s : List ℕ) (place : Value → List Value → List Value)
        → text_of_code (char_at a.sig 1) ≡ o
        → ((e : List ℕ) (v : Value) (xs : List Value)
            → signature v ≡ e
            → IsTyped lib v
            → Each lib e xs
            → Each lib e (place v xs))
        → IsTyped lib (freeze a)
        → IsTyped lib (freeze (after (insert_as lib o s place a) a))
    insert_as-IsTyped a none s place c keep h = h
    insert_as-IsTyped a (some t) s place c keep (e, p, q, h) =
        elim (Result-cases (make_text lib t s)) [
          | inl (v, m) ↦
              (let (sv, tv) = make_text-IsTyped lib t s m in
                rw m (e, p, q, keep e v a.items (sv ∙ text_known lib laws a.sig t e c p q) tv h))
          | inr (x, m) ↦ rw m (e, p, q, h)
        ]

    assign_as-IsTyped :
        (a : Array) (o : Option Text) (texts : List (List ℕ))
        → text_of_code (char_at a.sig 1) ≡ o
        → IsTyped lib (freeze a)
        → IsTyped lib (freeze (assign_as lib o texts a).0)
    assign_as-IsTyped a none texts c h =
        (b's' ∷ [], refl, laws.strings_valid, emplace_all-Each lib Text.string texts [] tt)
    assign_as-IsTyped a (some t) texts c (e, p, q, h) =
        let known = text_known lib laws a.sig t e c p q in
        (
          e,
          p,
          q,
          subst (λ w. Each lib w (emplace_all lib t texts []).0) known
              (emplace_all-Each lib t texts [] tt),
        )

    insert_each-IsTyped :
        (a : Array) (o : Option Text) (i : ℕ) (texts : List (List ℕ))
        → text_of_code (char_at a.sig 1) ≡ o
        → IsTyped lib (freeze a)
        → IsTyped lib (freeze (insert_each lib o i texts a).0)
    insert_each-IsTyped a none i texts c h = h
    insert_each-IsTyped a (some t) i texts c (e, p, q, h) =
        let known = text_known lib laws a.sig t e c p q in
        (
          e,
          p,
          q,
          subst (λ w. Each lib w (insert_texts_as lib t i texts a.items).0) known
              (insert_texts_as-Each lib t i texts a.items
                (subst (λ w. Each lib w a.items) (sym known) h)),
        )

    -- Any call keeps an array typed, if its arguments are.
    run-IsTyped :
        (op : Operation) (a : Array)
        → Fits op
        → IsTyped lib (freeze a)
        → IsTyped lib (freeze (run lib op a))
    unfolding run
    run-IsTyped (push_back_op v) a f h =
        value-IsTyped a v (λ xs. xs ++ v ∷ []) (λ e xs s. Each-append lib e v s f xs) h
    run-IsTyped (push_pointer_op none) a f h = h
    run-IsTyped (push_pointer_op (some v)) a f h =
        value-IsTyped a v (λ xs. xs ++ v ∷ []) (λ e xs s. Each-append lib e v s f xs) h
    run-IsTyped (push_basic_op b) a f h =
        basic-IsTyped a b (λ xs. xs ++ Value.basic b ∷ []) f.0
          (λ e xs s. Each-append lib e (Value.basic b) s f.1 xs) h
    run-IsTyped (push_text_op s) a f h =
        insert_as-IsTyped a _ s (λ v xs. xs ++ v ∷ []) refl
          (λ e v xs sv tv. Each-append lib e v sv tv xs) h
    run-IsTyped (insert_op i v) a f h =
        value-IsTyped a v (insert_at i v) (λ e xs s. Each-insert_at lib e v s f i xs) h
    run-IsTyped (insert_basic_op i b) a f h =
        basic-IsTyped a b (insert_at i (Value.basic b)) f.0
          (λ e xs s. Each-insert_at lib e (Value.basic b) s f.1 i xs) h
    run-IsTyped (insert_text_op i s) a f h =
        insert_as-IsTyped a _ s (insert_at i) refl
          (λ e v xs sv tv. Each-insert_at lib e v sv tv i xs) h
    run-IsTyped (insert_count_op i n v) a f h =
        value-IsTyped a v (insert_times i n v) (λ e xs s. Each-insert_times lib e v s f i n xs) h
    run-IsTyped (insert_range_op i []) a f h = h
    run-IsTyped (insert_range_op i (v ∷ vs)) a f h =
        value-IsTyped a v (insert_all i (v ∷ vs))
          (λ e xs s. Each-insert_all lib e i (v ∷ vs) xs (subst (λ w. Each lib w (v ∷ vs)) s f)) h
    run-IsTyped (insert_basics_op i c bs) a f h =
        verified-IsTyped a _ (insert_all i (basics bs)) h (λ e t p k.
          Each-insert_all lib e i (basics bs) a.items
            (subst (λ w. Each lib w (basics bs)) (basic_known lib laws a.sig c e f.0 t p h.2) f.1)
            k)
    run-IsTyped (insert_texts_op i texts) a f h = insert_each-IsTyped a _ i texts refl h
    run-IsTyped pop_back_op a f h =
        changed-IsTyped a drop_last h (λ e. Each-drop_last lib e a.items)
    run-IsTyped (erase_op i) a f h =
        changed-IsTyped a (erase_at i) h (λ e. Each-erase_at lib e i a.items)
    run-IsTyped (erase_some_op i n) a f h =
        changed-IsTyped a (erase_range i n) h (λ e. Each-erase_range lib e i n a.items)
    run-IsTyped clear_op a f h = changed-IsTyped a (λ xs. []) h (λ e k. tt)
    run-IsTyped (assign_op (Value.array s xs)) a (e, p, q, g) h = (e, p, q, Each-to_list lib e xs g)
    run-IsTyped (assign_op (Value.basic b)) a f h = h
    run-IsTyped (assign_op (Value.struct s xs)) a f h = h
    run-IsTyped (assign_op (Value.dict s es)) a f h = h
    run-IsTyped (assign_op (Value.variant v)) a f h = h
    run-IsTyped (assign_texts_op []) a f h = changed-IsTyped a (λ xs. []) h (λ e k. tt)
    run-IsTyped (assign_texts_op (s ∷ texts)) a f h = assign_as-IsTyped a _ (s ∷ texts) refl h
    run-IsTyped (assign_basics_op c []) a f h = changed-IsTyped a (λ xs. []) h (λ e k. tt)
    run-IsTyped (assign_basics_op c (b ∷ bs)) a f h = (c ∷ [], refl, f.0, f.1)

  abbrev pub AllFit : List Operation → Type 0
  AllFit [] = Unit {0}
  AllFit (op ∷ ops) = Fits op × AllFit ops

-- Any sequence of calls of push_back, insert, pop_back, erase, clear and operator= of a dbus_array,
-- whether they throw or not and also where they throw midway, leaves an array whose signature is that
-- of an array and whose every member has the signature of the elements and is typed itself, if the
-- array was so and the arguments are typed. The elements of a range that is inserted have to have one
-- signature, since the code only looks at the first, and those of an initializer list a type whose
-- arrays are valid. Changes of an element through a reference or an iterator are left out.
pub run_all-IsTyped :
    (lib : Libdbus) (laws : Laws lib) (ops : List Operation) (a : Array)
    → AllFit lib ops
    → IsTyped lib (freeze a)
    → IsTyped lib (freeze (run_all lib ops a))
unfolding run_all
run_all-IsTyped lib laws [] a f h = h
run_all-IsTyped lib laws (op ∷ ops) a f h =
    run_all-IsTyped lib laws ops (run lib op a) f.1 (run-IsTyped lib laws op a f.0 h)
