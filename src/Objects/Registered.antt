-- ===== src/Objects/Registered.antt =====
-- The paths of a handler against those that libdbus has for it.
use Prim.Native.String.{String}
use text.Mathlib.Text.{◌==◌ as str_eq}
use text.Mathlib.TextEquality.{eq_iff}
use libultrabus.Common.{
  ℕ, ◌≡◌, refl, Bool, true, false, not, ◌&&◌, Option, none, some, List, [], ◌∷◌, if◌then◌else◌, ap,
  ◌∙◌, Bool-cases, inl, inr, arith,
}
use libultrabus.Objects.Paths.{
  Entry, find_path, erase_path, put_path, is_some, find_path-erase_path, find_path-put_path,
}
use libultrabus.Objects.{
  Registration, unregistered, Handler, new_handler, register_found, register_object_path,
  unregister_found, unregister_object_path, unregister_all, destroy, is_registered,
}

-- libdbus has a path exactly if the handler has an entry for it.
pub record IsConsistent (s : Handler) : Type 0 where
  pub same : (q : String) → is_registered q s.log ≡ is_some (find_path q s.opath_map)

known_put :
    (p q : String) (cb : Option ℕ) (es : List Entry)
    → is_some (find_path q (put_path p cb es))
      ≡ (if str_eq p q then true else is_some (find_path q es))
known_put p q cb es = elim (Bool-cases (str_eq p q)) [
  | inl h ↦ rw (find_path-put_path p q cb es, h) refl
  | inr h ↦ rw (find_path-put_path p q cb es, h) refl
]

known_erase :
    (p q : String) (es : List Entry)
    → is_some (find_path q (erase_path p es))
      ≡ (if str_eq p q then false else is_some (find_path q es))
known_erase p q es = elim (Bool-cases (str_eq p q)) [
  | inl h ↦ rw (find_path-erase_path p q es, h) refl
  | inr h ↦ rw (find_path-erase_path p q es, h) refl
]

same_known :
    (p q : String) (es : List Entry)
    → str_eq p q ≡ true
    → is_some (find_path p es) ≡ is_some (find_path q es)
same_known p q es e = ap (λ x. is_some (find_path x es)) ((eq_iff p q).0 e)

register_found-IsConsistent :
    (conn_up registers : Bool) (opath : String) (callback : Option ℕ) (old : Option (Option ℕ))
    (s : Handler)
    → find_path opath s.opath_map ≡ old
    → IsConsistent s
    → IsConsistent (register_found conn_up registers opath callback old s).0
unfolding is_registered
register_found-IsConsistent u r p cb (some o) s e v = record {
  same = λ q.
      let a = known_put p q cb s.opath_map in
      let b = same_known p q s.opath_map in
      let c = ap is_some e in let d = v.same q in ground arith;
}
register_found-IsConsistent true true p cb none s e v = record {
  same = λ q. let a = known_put p q cb s.opath_map in let d = v.same q in ground arith;
}
register_found-IsConsistent true false p cb none s e v = record {
  same = λ q.
      let a = known_put p q cb s.opath_map in
      let f = known_erase p q (put_path p cb s.opath_map) in
      let b = same_known p q s.opath_map in
      let c = ap is_some e in let d = v.same q in ground arith;
}
register_found-IsConsistent false r p cb none s e v = v

unregister_found-IsConsistent :
    (unregisters : Bool) (opath : String) (old : Option (Option ℕ)) (s : Handler)
    → IsConsistent s
    → IsConsistent (unregister_found unregisters opath old s).0
unfolding is_registered
unregister_found-IsConsistent u p none s v = v
unregister_found-IsConsistent true p (some o) s v = record {
  same = λ q. let a = known_erase p q s.opath_map in let d = v.same q in ground arith;
}
unregister_found-IsConsistent false p (some o) s v = v

pub data Step (s : Handler) : Handler → Type 0 where
  registers_path :
      (conn_up ok : Bool) (opath : String) (callback : Option ℕ)
      → Step s (register_object_path conn_up ok opath callback s).0
  unregisters_path :
      (conn_up ok : Bool) (opath : String) → Step s (unregister_object_path conn_up ok opath s).0

pub data Reach : Handler → Type 0 where
  start : Reach new_handler
  later : {s t : Handler} → Reach s → Step s t → Reach t

Step-IsConsistent : {s t : Handler} → Step s t → IsConsistent s → IsConsistent t
unfolding register_object_path unregister_object_path
Step-IsConsistent {s} (registers_path u r p cb) v = register_found-IsConsistent u r p cb _ s refl v
Step-IsConsistent {s} (unregisters_path true r p) v = unregister_found-IsConsistent r p _ s v
Step-IsConsistent {s} (unregisters_path false r p) v = v

-- After any sequence of calls of register_object_path and unregister_object_path, whatever libdbus
-- answers, libdbus has a path for the handler exactly if the handler has an entry for it. The
-- connection stays open between the calls that find it open.
pub Reach-IsConsistent : {s : Handler} → Reach s → IsConsistent s
unfolding is_registered find_path
Reach-IsConsistent start = record { same = λ q. refl }
Reach-IsConsistent (later r st) = Step-IsConsistent st (Reach-IsConsistent r)

unregister_all-is_registered :
    (unregisters : String → Bool) (q : String) (es : List Entry) (log : List Registration)
    → is_registered q (unregister_all unregisters es log)
      ≡ (if is_some (find_path q es) && unregisters q then false else is_registered q log)
unfolding unregister_all is_registered find_path
unregister_all-is_registered unregisters q [] log = refl
unregister_all-is_registered unregisters q (e ∷ es) log =
    let next = if unregisters e.path then unregistered e.path ∷ log else log in
    let rest = unregister_all-is_registered unregisters q es next in
    elim (Bool-cases (unregisters e.path)) [
      | inl u ↦ elim (Bool-cases (str_eq e.path q)) [
        | inl h ↦ let k = ap unregisters ((eq_iff e.path q).0 h) in rest ∙ rw (u, h) (ground arith)
        | inr h ↦ rest ∙ rw (u, h) refl
      ]
      | inr u ↦ elim (Bool-cases (str_eq e.path q)) [
        | inl h ↦ let k = ap unregisters ((eq_iff e.path q).0 h) in rest ∙ rw (u, h) (ground arith)
        | inr h ↦ rest ∙ rw (u, h) refl
      ]
    ]

-- After any sequence of calls of register_object_path and unregister_object_path, the destructor of
-- a handler on an open connection leaves libdbus exactly those of its paths that
-- dbus_connection_unregister_object_path does not take back, which it does not look at.
pub Reach-destroy :
    (s : Handler) (unregisters : String → Bool)
    → Reach s
    → (q : String)
    → is_registered q (destroy true unregisters s)
      ≡ (is_some (find_path q s.opath_map) && not (unregisters q))
unfolding destroy
Reach-destroy s unregisters r q =
    let e = unregister_all-is_registered unregisters q s.opath_map s.log in
    let v = (Reach-IsConsistent r).same q in ground arith
