-- ===== src/Tests/Paths.antt =====
-- Object paths at concrete inputs.
use text.Mathlib.Text.{◌==◌ as str_eq}
use libultrabus.Common.{◌&&◌, not, ◌≡◌, refl, true, false, some, none, ◌∷◌}
use libultrabus.Objects.Paths.{find_path, put_path, is_some}
use libultrabus.Objects.{
  Handler, new_handler, closed, register_object_path, unregister_object_path, is_registered,
  destroy,
}
use libultrabus.Objects.Registered.{
  IsConsistent, Reach, start, later, registers_path, unregisters_path, Reach-IsConsistent,
  Reach-destroy,
}
use libultrabus.Objects.Handling.{IsHandling, register_object_path-IsHandling}

abbrev handler : Handler
handler = (register_object_path true true "/a" (some 1) new_handler).0

handler-Reach : Reach handler
handler-Reach = later start (registers_path true true "/a" (some 1))

handler_entry : find_path "/a" handler.opath_map ≡ some (some 1)
unfolding register_object_path find_path put_path
handler_entry = refl

Reach-IsConsistent_example :
    IsConsistent
      (unregister_object_path true true "/a"
        (register_object_path true false "/b" none handler).0).0
Reach-IsConsistent_example = Reach-IsConsistent (
    later (later handler-Reach (registers_path true false "/b" none))
      (unregisters_path true true "/a"))

Reach-destroy_example :
    is_registered "/a" (destroy true (λ p. str_eq p "/b") handler)
    ≡ (is_some (find_path "/a" handler.opath_map) && not (str_eq "/a" "/b"))
Reach-destroy_example = Reach-destroy handler (λ p. str_eq p "/b") handler-Reach "/a"

register_object_path-IsHandling_example :
    IsHandling "/a" (some 2) handler (register_object_path false false "/a" (some 2) handler)
register_object_path-IsHandling_example =
    register_object_path-IsHandling false false "/a" (some 2) handler

abbrev reconnected : Handler
reconnected =
    (register_object_path true true "/a" (some 2) (record handler { log = closed ∷ handler.log })).0
