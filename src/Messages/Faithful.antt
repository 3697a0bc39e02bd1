-- ===== src/Messages/Faithful.antt =====
-- What is appended to a message, and what the reader makes of it.
use libultrabus.Common.{
  ℕ, Bool, true, false, List, [], ◌∷◌, ◌++◌, ◌==◌, ◌-◌, ◌≡◌, refl, ap, ◌∙◌, same_refl,
  drop_char-append, ==_iff, append_assoc, append-nil, if◌then◌else◌,
}
use libultrabus.Values.{Basic, Value, Values, Entries, signature, code, of_list, to_list}
use libultrabus.Values.Typed.{signatures, IsTyped, EachTyped, AllTyped, EntriesTyped}
use libultrabus.Values.Arrays.{new_array, push_back, push_pointer}
use libultrabus.Values.Structs.{Struct, new_struct, add_pointer, add}
use libultrabus.Values.Structs.Signature.{add_attrib_signature-signatures, of_list-to_list}
use libultrabus.Values.Dicts.{dict_signature, set, set_pointer, new_dict}
use libultrabus.Messages.{Item, one, write, write_all, write_entries, append}
use libultrabus.Messages.Reading.{
  Reader, Read, Loop, keys, read, read_struct, read_array, read_entries, arguments,
}
use libultrabus.Messages.Sendable.{
  IsSendable, AllSendable, EntriesSendable, items_of, of_items-items_of, AreBefore,
  AreBefore-append, basic_plain, basic_read, kept_unwrapped, put_returns,
}

-- The values that `arguments` gives at most, where 0 is no limit.
unfoldable pub limited : ℕ → List Value → List Value
limited max [] = []
limited max (v ∷ vs) = let rest = limited (max - 1) vs in if max == 1 then v ∷ [] else v ∷ rest

module _ (r : Reader) where
  -- An argument that a value is written as, and read back from.
  abbrev Returns : Value → Type 0
  Returns v = (i : Item) × (write v ≡ one i) × (read r i ≡ Read.made v)

  mutual
    unfolding write read add_pointer add push_pointer push_back set_pointer set new_array new_dict

    returns : (v : Value) → IsTyped r.lib v → IsSendable r v → Returns v
    returns (Value.basic b) t h =
        (Item.basic_item b, rw (basic_plain r b h) refl, basic_read r b t h)
    returns (Value.array s xs) (e, p, v, t) (n, h) =
        let valid = rw p at v in
        let no_entry = rw p at n in
        (
          Item.array_item e (write_all xs),
          rw p refl,
          rw (p, no_entry, valid, array_returns e xs t h [])
              (ap (λ ys. Read.made (Value.array (b'a' ∷ e) ys)) (of_list-to_list r.lib xs)),
        )
    returns (Value.struct s Values.nil) t h = elim h [ ]
    returns (Value.struct s (Values.cons x xs)) (p, t) h = (
      Item.struct_item (write_all (Values.cons x xs)),
      refl,
      rw (struct_returns (Values.cons x xs) t h new_struct refl, p)
          (rw (of_list-to_list r.lib xs) refl),
    )
    returns (Value.dict s es) (k, e, p, v, t) (b, h) =
        let basic = rw p at b in
        (
          Item.array_item (b'{' ∷ k ∷ (e ++ b'}' ∷ [])) (write_entries es),
          rw (p, basic, drop_char-append e b'}') refl,
          rw
              (
                p,
                basic,
                drop_char-append e b'}',
                v,
                entries_return k e es t h [] tt,
                of_items-items_of r k es,
              )
              refl,
        )
    returns (Value.variant v) (n, t) h =
        let (i, w, q) = returns v t h in
        (Item.variant_item (signature v) (one i), rw w refl, rw q (rw (kept_unwrapped r v n) refl))

    struct_returns :
        (xs : Values)
        → AllTyped r.lib xs
        → AllSendable r xs
        → (s : Struct) → s.sig ≡ b'(' ∷ (signatures (of_list s.items) ++ b')' ∷ [])
        → read_struct r (write_all xs) s
          ≡ Loop.finished (record {
            sig = b'(' ∷ (signatures (of_list (s.items ++ to_list xs)) ++ b')' ∷ []);
            items = s.items ++ to_list xs;
          })
    struct_returns Values.nil t h s p = rw (append-nil s.items, ← p) refl
    struct_returns (Values.cons x xs) t h s p =
        let (i, w, q) = returns x t.0 h.0 in
        rw (w, q)
          (struct_returns xs t.1 h.1 (add x s) (add_attrib_signature-signatures s.sig s.items x p)
            ∙ rw (append_assoc s.items (x ∷ []) (to_list xs)) refl)

    array_returns :
        (e : List ℕ) (xs : Values)
        → EachTyped r.lib e xs
        → AllSendable r xs
        → (m : List Value)
        → read_array r (write_all xs) (record { sig = b'a' ∷ e; items = m })
          ≡ Loop.finished (record { sig = b'a' ∷ e; items = m ++ to_list xs })
    array_returns e Values.nil t h m = rw (append-nil m) refl
    array_returns e (Values.cons x xs) (g, t, ts) h m =
        let (i, w, q) = returns x t h.0 in
        rw (w, q, g, same_refl e)
          (array_returns e xs ts h.1 (m ++ x ∷ []) ∙ rw (append_assoc m (x ∷ []) (to_list xs)) refl)

    entries_return :
        (k : ℕ) (e : List ℕ) (es : Entries)
        → EntriesTyped r.lib k e es
        → EntriesSendable r es
        → (m : List (Basic × Value)) → AreBefore r m es
        → read_entries r
            (write_entries es)
            k
            (record { sig = dict_signature (keys r.reals k) e; items = m })
          ≡ Loop.finished
              (record { sig = dict_signature (keys r.reals k) e; items = m ++ items_of r es })
    entries_return k e Entries.end t h m o = rw (append-nil m) refl
    entries_return k e (Entries.entry b v es) (c, tb, g, tv, ts) (hb, hv, before, hs) m o =
        let (i, w, q) = returns v tv hv in
        let same_code = (==_iff (code b) k).1 c in
        rw
          (
            basic_plain r b hb,
            same_code,
            w,
            q,
            basic_read r b tb hb,
            put_returns r k e b v es m g o,
          )
          (entries_return k e es ts hs (m ++ (b, v) ∷ []) (AreBefore-append r b v es m o before)
            ∙ rw (append_assoc m ((b, v) ∷ []) (items_of r es)) refl)

  last_or_more :
      (last : Bool) (args : List Value) (v : Value) (vs : List Value) {more : Loop (List Value)}
      → more ≡ Loop.finished (args ++ v ∷ vs)
      → (if last then Loop.finished (args ++ v ∷ []) else more)
        ≡ Loop.finished (args ++ (if last then v ∷ [] else v ∷ vs))
  last_or_more true args v vs h = refl
  last_or_more false args v vs h = h

  arguments_return :
      (vs : List Value) (max : ℕ) (args : List Value)
      → AllTyped r.lib (of_list vs)
      → AllSendable r (of_list vs)
      → arguments r (append vs) max args ≡ Loop.finished (args ++ limited max vs)
  unfolding arguments append limited
  arguments_return [] max args t h = rw (append-nil args) refl
  arguments_return (v ∷ vs) max args t h =
      let (i, w, q) = returns v t.0 h.0 in
      rw (w, q)
        (last_or_more (max == 1) args v (limited (max - 1) vs) (
          arguments_return vs (max - 1) (args ++ v ∷ []) t.1 h.1
          ∙ rw (append_assoc args (v ∷ []) (limited (max - 1) vs)) refl))

-- The arguments appended to a message are read back as they were, as many of them as asked for: of
-- typed values, without a file descriptor, a text with a NUL, an empty struct or an array of dict
-- entries in them, and with the entries of each dict in the order of the keys. Libdbus is taken to
-- accept each text that is appended; its refusal of one that is not UTF-8 is left out.
pub arguments-append :
    (r : Reader) (vs : List Value) (max : ℕ)
    → AllTyped r.lib (of_list vs)
    → AllSendable r (of_list vs)
    → arguments r (append vs) max [] ≡ Loop.finished (limited max vs)
arguments-append r vs max t h = arguments_return r vs max [] t h
