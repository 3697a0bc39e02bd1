-- ===== src/Messages/Sendable.antt =====
-- The values that a message carries unchanged, and how a basic value and an entry are read back.
use libultrabus.Common.{
  ℕ, true, false, List, [], ◌∷◌, ◌++◌, some, ◌==◌, ◌≡◌, refl, ap, same_refl, drop_char-append,
  arith,
}
use libultrabus.Numbers.{Kind, is_fd}
use libultrabus.Values.{
  Text, Basic, Value, Values, Entries, is_variant, signature, char_at, make_text,
}
use libultrabus.Values.Typed.{is_basic_code, IsTypedBasic}
use libultrabus.Values.Dicts.{dict_signature, put, set, set_pointer, of_items}
use libultrabus.Values.Assign.{unwrapped}
use libultrabus.Messages.{plain, until_nul}
use libultrabus.Messages.Reading.{Reader, Read, less_basic, keys, read_basic}

module _ (r : Reader) where
  -- The entries whose keys are all after this one.
  abbrev pub IsBefore : Basic → Entries → Type 0
  IsBefore j Entries.end = Unit {0}
  IsBefore j (Entries.entry k v es) = (less_basic r.reals j k ≡ true) × IsBefore j es

  abbrev pub IsSendableBasic : Basic → Type 0
  IsSendableBasic (Basic.number k x) = is_fd k ≡ false
  IsSendableBasic (Basic.real x) = Unit {0}
  IsSendableBasic (Basic.text t s) = until_nul s ≡ s

  -- No file descriptor, no text with a NUL, no struct without attributes and no array of dict
  -- entries in it, and its dicts are in the order of their keys.
  abbrev mutual
    pub IsSendable : Value → Type 0
    IsSendable (Value.basic b) = IsSendableBasic b
    IsSendable (Value.array s xs) = ((char_at s 1 == b'{') ≡ false) × AllSendable xs
    IsSendable (Value.struct s Values.nil) = ⊥
    IsSendable (Value.struct s (Values.cons x xs)) = IsSendable x × AllSendable xs
    IsSendable (Value.dict s es) = (is_basic_code (char_at s 2) ≡ true) × EntriesSendable es
    IsSendable (Value.variant v) = IsSendable v

    pub AllSendable : Values → Type 0
    AllSendable Values.nil = Unit {0}
    AllSendable (Values.cons x xs) = IsSendable x × AllSendable xs

    pub EntriesSendable : Entries → Type 0
    EntriesSendable Entries.end = Unit {0}
    EntriesSendable (Entries.entry k v es) =
        IsSendableBasic k × IsSendable v × IsBefore k es × EntriesSendable es

  abbrev pub items_of : Entries → List (Basic × Value)
  items_of Entries.end = []
  items_of (Entries.entry k v es) = (k, v) ∷ items_of es

  pub of_items-items_of : (k : ℕ) (es : Entries) → of_items (keys r.reals k) (items_of es) ≡ es
  of_items-items_of k Entries.end = refl
  of_items-items_of k (Entries.entry b v es) = ap (Entries.entry b v) (of_items-items_of k es)

  -- Every key read until now is before those that are left.
  abbrev pub AreBefore : List (Basic × Value) → Entries → Type 0
  AreBefore [] es = Unit {0}
  AreBefore ((j, w) ∷ m) es = IsBefore j es × AreBefore m es

  put_last :
      (c : ℕ) (k : Basic) (v : Value) (es : Entries) (m : List (Basic × Value))
      → AreBefore m (Entries.entry k v es)
      → put (keys r.reals c) k v m ≡ m ++ (k, v) ∷ []
  unfolding put
  put_last c k v es [] h = refl
  put_last c k v es ((j, w) ∷ m) (b, h) = rw (b.0, put_last c k v es m h) refl

  pub AreBefore-append :
      (k : Basic) (v : Value) (es : Entries) (m : List (Basic × Value))
      → AreBefore m (Entries.entry k v es)
      → IsBefore k es
      → AreBefore (m ++ (k, v) ∷ []) es
  AreBefore-append k v es [] h b = (b, tt)
  AreBefore-append k v es ((j, w) ∷ m) (g, h) b = (g.1, AreBefore-append k v es m h b)

  read_number :
      (k : Kind) (x : _)
      → is_fd k ≡ false
      → read_basic r (Basic.number k x) ≡ Read.made (Value.basic (Basic.number k x))
  unfolding read_basic
  read_number k x h = ground arith

  pub basic_plain : (b : Basic) → IsSendableBasic b → plain b ≡ b
  basic_plain (Basic.number k x) h = refl
  basic_plain (Basic.real x) h = refl
  basic_plain (Basic.text t s) h = rw h refl

  pub basic_read :
      (b : Basic)
      → IsTypedBasic r.lib b
      → IsSendableBasic b
      → read_basic r b ≡ Read.made (Value.basic b)
  unfolding read_basic make_text
  basic_read (Basic.number k x) t h = read_number k x h
  basic_read (Basic.real x) t h = refl
  basic_read (Basic.text Text.string s) t h = refl
  basic_read (Basic.text Text.opath s) t h = rw t refl
  basic_read (Basic.text Text.type_signature s) t h = rw t refl

  pub kept_unwrapped : (v : Value) → is_variant v ≡ false → unwrapped v ≡ v
  kept_unwrapped (Value.variant v) h = absurd (cc)
  kept_unwrapped (Value.basic b) h = refl
  kept_unwrapped (Value.array s xs) h = refl
  kept_unwrapped (Value.struct s xs) h = refl
  kept_unwrapped (Value.dict s es) h = refl

  pub put_returns :
      (k : ℕ) (e : List ℕ) (b : Basic) (v : Value) (es : Entries) (m : List (Basic × Value))
      → signature v ≡ e
      → AreBefore m (Entries.entry b v es)
      → (set_pointer
          (keys r.reals k)
          b
          (some v)
          (record { sig = dict_signature (keys r.reals k) e; items = m })).0
        ≡ record { sig = dict_signature (keys r.reals k) e; items = m ++ (b, v) ∷ [] }
  unfolding set_pointer set
  put_returns k e b v es m g h =
      rw (drop_char-append e b'}', g, same_refl e, put_last k b v es m h) refl
