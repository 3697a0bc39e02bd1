-- ===== src/Objects/Handling.antt =====
-- Which callback a method call to a path is given to.
use Prim.Native.String.{String}
use text.Mathlib.Text.{◌==◌ as str_eq}
use text.Mathlib.TextPositions.{eq_refl}
use libultrabus.Common.{ℕ, ◌≡◌, refl, Bool, true, false, Option, none, some, ◌∷◌, ◌∙◌, sym}
use libultrabus.Objects.Paths.{find_path, put_path, find_path-erase_path, find_path-put_path}
use libultrabus.Objects.{closed, Handler, register_found, register_object_path, is_registered}

pub record IsHandling (opath : String) (callback : Option ℕ) (s : Handler) (r : Handler × Bool)
    : Type 0 where
  pub as_given : r.1 ≡ true → find_path opath r.0.opath_map ≡ some callback
  pub kept : r.1 ≡ false → find_path opath r.0.opath_map ≡ find_path opath s.opath_map
  pub others :
      (q : String) → str_eq opath q ≡ false → find_path q r.0.opath_map ≡ find_path q s.opath_map

put_same :
    (p : String) (callback : Option ℕ) (s : Handler)
    → find_path p (put_path p callback s.opath_map) ≡ some callback
put_same p callback s =
    let e = eq_refl p in find_path-put_path p p callback s.opath_map ∙ rw (e) refl

put_other :
    (p q : String) (callback : Option ℕ) (s : Handler)
    → str_eq p q ≡ false
    → find_path q (put_path p callback s.opath_map) ≡ find_path q s.opath_map
put_other p q callback s d = find_path-put_path p q callback s.opath_map ∙ rw (d) refl

register_found-IsHandling :
    (conn_up registers : Bool) (opath : String) (callback : Option ℕ) (old : Option (Option ℕ))
    (s : Handler)
    → find_path opath s.opath_map ≡ old
    → IsHandling opath callback s (register_found conn_up registers opath callback old s)
register_found-IsHandling u r p cb (some o) s e = record {
  as_given = λ _. put_same p cb s;
  kept = λ h. cc;
  others = λ q d. put_other p q cb s d;
}
register_found-IsHandling true true p cb none s e = record {
  as_given = λ _. put_same p cb s;
  kept = λ h. cc;
  others = λ q d. put_other p q cb s d;
}
register_found-IsHandling true false p cb none s e = record {
  as_given = λ h. cc;
  kept = λ _.
      let k = eq_refl p in find_path-erase_path p p (put_path p cb s.opath_map) ∙ rw (k) (sym e);
  others =
      λ q d. find_path-erase_path p q (put_path p cb s.opath_map) ∙ rw (d) (put_other p q cb s d);
}
register_found-IsHandling false r p cb none s e = record {
  as_given = λ h. cc;
  kept = λ _. refl;
  others = λ q d. refl;
}

-- Whatever is_connected and libdbus answer: register_object_path either returns true, and the
-- entry that method calls to the path are handled with then has the given callback, also if the
-- path was registered before; or it returns false and the path has the entry that it had. The
-- entries of other paths stay.
pub register_object_path-IsHandling :
    (conn_up registers : Bool) (opath : String) (callback : Option ℕ) (s : Handler)
    → IsHandling opath callback s (register_object_path conn_up registers opath callback s)
unfolding register_object_path
register_object_path-IsHandling u r p cb s = register_found-IsHandling u r p cb _ s refl

-- A path that was registered before the connection was closed: on the next connection
-- register_object_path reports success and asks libdbus for nothing, so libdbus does not have it.
pub register_object_path-closed :
    (registers : Bool) (opath : String) (callback old : Option ℕ) (s : Handler)
    → find_path opath s.opath_map ≡ some old
    → let t = record s { log = closed ∷ s.log } in
      let r = register_object_path true registers opath callback t in
      (r.1 ≡ true) × (r.0.log ≡ t.log) × (is_registered opath r.0.log ≡ false)
unfolding register_object_path is_registered
register_object_path-closed registers opath callback old s e = rw (e) (refl, refl, refl)
