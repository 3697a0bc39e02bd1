-- ===== src/Values/Dicts/Calls.antt =====
-- The calls of a dbus_dict against its signature.
use libultrabus.Common.{
  Bool-cases, inl, inr, ℕ, true, List, [], ◌∷◌, Option, none, some, ◌≡◌, refl, subst, if◌then◌else◌,
  ◌==◌, ==_iff, arith,
}
use libultrabus.Values.{Basic, Value, Result, ok_inj, ok, Libdbus, code}
use libultrabus.Values.Typed.{IsTyped, IsTypedBasic, is_basic_code, Laws}
use libultrabus.Values.Dicts.{
  set_found, new_dict, KeyClass, Dict, freeze, set_pointer, set_any, as_key, clear, reset,
  dict_signature, Operation, run, run_all, set_op, set_pointer_op, set_any_op, set_basic_op,
  set_text_op, clear_op, reset_op,
}
use libultrabus.Values.Dicts.Sequence.{IsKey, Holds, set-Holds, basic-Holds, text-Holds}

-- A key that is read off a basic value with the type code of the class is that value.
pub record Recovers {K : Type 0} (c : KeyClass K) : Type 0 where
  pub recovered :
      (b : Basic) (k : K) → (code b == c.key_code) ≡ true → c.of_basic b ≡ some k → c.to_basic k ≡ b

module _ (lib : Libdbus) {K : Type 0} (c : KeyClass K) (r : Recovers c) where
  read-IsKey :
      (b : Basic) (k : K)
      → IsTypedBasic lib b
      → (if code b == c.key_code then c.of_basic b else none) ≡ some k
      → IsKey lib c k
  read-IsKey b k t h = elim (Bool-cases (code b == c.key_code)) [
    | inl e ↦
        (let found : c.of_basic b ≡ some k = ground arith in
          let same_basic = r.recovered b k e found in
          rw same_basic ((==_iff (code b) c.key_code).0 e, t))
    | inr e ↦ absurd (ground arith)
  ]

  as_key-IsKey : (v : Value) (k : K) → IsTyped lib v → as_key c v ≡ some k → IsKey lib c k
  as_key-IsKey (Value.basic b) k t h = read-IsKey b k t h
  as_key-IsKey (Value.variant (Value.basic b)) k t h = read-IsKey b k t.1 h
  as_key-IsKey v k t h = absurd (cc)

  -- The arguments of a call are typed; a basic value is none of a string type.
  abbrev pub Fits : Operation K → Type 0
  Fits (set_op k v) = IsKey lib c k × IsTyped lib v
  Fits (set_pointer_op k none) = Unit {0}
  Fits (set_pointer_op k (some v)) = IsKey lib c k × IsTyped lib v
  Fits (set_any_op k v) = IsTyped lib k × IsTyped lib v
  Fits (set_basic_op k b) = IsKey lib c k × (is_basic_code (code b) ≡ true) × IsTypedBasic lib b
  Fits (set_text_op k s) = IsKey lib c k
  Fits _ = Unit {0}

  abbrev IsDict : Dict K → Type 0
  IsDict d = (e : List ℕ) × Holds lib c e d

  module _ (laws : Laws lib) where
    found-Holds :
        (e : List ℕ) (o : Option K) (v : Value) (d : Dict K)
        → ((k : K) → o ≡ some k → IsKey lib c k)
        → IsTyped lib v
        → Holds lib c e d
        → Holds lib c e (set_found c o v d).0
    unfolding set_found
    found-Holds e none v d g t h = h
    found-Holds e (some k) v d g t h = set-Holds lib c laws e k v d (g k refl) t h

    reset-IsDict : (s : List ℕ) (d : Dict K) → IsDict d → IsDict (reset c lib s d).0
    unfolding reset
    reset-IsDict s d h = elim (Bool-cases (lib.valid_single s)) [
      | inl e ↦ rw e (s, (refl, e, tt))
      | inr e ↦ rw e h
    ]

    run-IsDict : (op : Operation K) (d : Dict K) → Fits op → IsDict d → IsDict (run lib c op d)
    unfolding run set_pointer set_any clear
    run-IsDict (set_op k v) d f (e, h) = (e, set-Holds lib c laws e k v d f.0 f.1 h)
    run-IsDict (set_pointer_op k none) d f h = h
    run-IsDict (set_pointer_op k (some v)) d f (e, h) = (e, set-Holds lib c laws e k v d f.0 f.1 h)
    run-IsDict (set_any_op k v) d f (e, h) =
        (e, found-Holds e (as_key c k) v d (λ j. as_key-IsKey k j f.0) f.1 h)
    run-IsDict (set_basic_op k b) d f (e, h) = (e, basic-Holds lib c laws e k b d f.0 f.1 f.2 h)
    run-IsDict (set_text_op k s) d f (e, h) = (e, text-Holds lib c laws e k s d f h)
    run-IsDict clear_op d f (e, h) = (e, (h.0, h.1, tt))
    run-IsDict (reset_op s) d f h = reset-IsDict s d h

  abbrev pub AllFit : List (Operation K) → Type 0
  AllFit [] = Unit {0}
  AllFit (op ∷ ops) = Fits op × AllFit ops

  run_all-IsDict :
      (laws : Laws lib) (ops : List (Operation K)) (d : Dict K)
      → AllFit ops
      → IsDict d
      → IsDict (run_all lib c ops d)
  unfolding run_all
  run_all-IsDict laws [] d f h = h
  run_all-IsDict laws (op ∷ ops) d f h =
      run_all-IsDict laws ops (run lib c op d) f.1 (run-IsDict laws op d f.0 h)

-- A dbus_dict that is made for a signature of its values, after any sequence of calls of set, clear
-- and reset with a signature, has the signature of its keys and values: every key is of the class of
-- the keys, every value has the signature of the values and is typed itself, as variants are. The
-- arguments of the calls are typed.
pub new_dict-run_all :
    (lib : Libdbus) (laws : Laws lib) {K : Type 0} (c : KeyClass K) (r : Recovers c)
    (value_sig : List ℕ) (ops : List (Operation K)) {d : Dict K}
    → AllFit lib c r ops
    → new_dict c lib value_sig ≡ ok d
    → IsTyped lib (freeze c (run_all lib c ops d))
unfolding new_dict
new_dict-run_all lib laws c r value_sig ops {d} f h =
    elim (Bool-cases (lib.valid_single value_sig)) [
      | inl e ↦
          (let made : Result.ok (record { sig = dict_signature c value_sig; items = [] }) ≡ ok d =
              ground arith in
            let (s, known) = run_all-IsDict lib c r laws ops d f (
              subst (λ b. (s : List ℕ) × Holds lib c s b) (ok_inj made)
                (value_sig, (refl, e, tt))) in
            (c.key_code, s, known.0, known.1, known.2))
      | inr e ↦ absurd (ground arith)
    ]
