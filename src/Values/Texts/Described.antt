-- ===== src/Values/Texts/Described.antt =====
-- The tree of JSON that describes a value, and the values whose JSON text a reader can take.
use libultrabus.Common.{ℕ, ◌<◌, true, false, ◌≡◌, some, List, [], ◌∷◌, codes}
use libultrabus.Common.Int.{ℤ}
use libultrabus.Numbers.{Kind}
use libultrabus.Values.{Text, Basic, Value, Values, Entries, code_of_kind, code_of_text}
use libultrabus.Json.{is_special}
use libultrabus.Json.Faithful.{AllBytes}
use libultrabus.Json.Document.{Tree, Trees, Members, number_of}
use libultrabus.Json.Document.RoundTrip.{all_number_chars}
use libultrabus.Values.Texts.{is_true}

-- The object that to_json writes.
abbrev pub typed : List ℕ → List ℕ → Tree → Tree
typed name sig value = Tree.object (
    Members.member (codes "type") (Tree.string name) (
      Members.member (codes "signature") (Tree.string sig)
        (Members.member (codes "value") value Members.end)))

abbrev pub number_name : Kind → List ℕ
number_name Kind.boolean = codes "boolean"
number_name Kind.byte = codes "byte"
number_name Kind.i16 = codes "int16"
number_name Kind.u16 = codes "uint16"
number_name Kind.i32 = codes "int32"
number_name Kind.u32 = codes "uint32"
number_name Kind.i64 = codes "int64"
number_name Kind.u64 = codes "uint64"
number_name Kind.unix_fd = codes "unix_fd"

abbrev pub text_name : Text → List ℕ
text_name Text.string = codes "string"
text_name Text.opath = codes "object_path"
text_name Text.type_signature = codes "signature"

abbrev pub number_tree : Kind → ℤ → Tree
number_tree Kind.boolean x = Tree.boolean (is_true x)
number_tree k x = Tree.integer x

-- The characters of signatures among others: none that JSON has to escape.
abbrev pub AllPlain : List ℕ → Type 0
AllPlain [] = Unit {0}
AllPlain (c ∷ cs) = (is_special c ≡ false) × (c < 256) × AllPlain cs

module _ (real_text : ℕ → List ℕ) where
  abbrev pub basic_tree : Basic → Tree
  basic_tree (Basic.number k x) = typed (number_name k) (code_of_kind k ∷ []) (number_tree k x)
  basic_tree (Basic.real r) = typed (codes "double") (b'd' ∷ []) (Tree.fraction (real_text r))
  basic_tree (Basic.text t s) = typed (text_name t) (code_of_text t ∷ []) (Tree.string s)

  abbrev mutual
    pub tree : Value → Tree
    tree (Value.basic b) = basic_tree b
    tree (Value.array s xs) = typed (codes "array") s (Tree.list (trees xs))
    tree (Value.struct s xs) = typed (codes "struct") s (Tree.list (trees xs))
    tree (Value.dict s es) = typed (codes "dict") s (Tree.list (entry_trees es))
    tree (Value.variant v) = typed (codes "variant") (b'v' ∷ []) (tree v)

    pub trees : Values → Trees
    trees Values.nil = Trees.nil
    trees (Values.cons x xs) = Trees.cons (tree x) (trees xs)

    pub entry_trees : Entries → Trees
    entry_trees Entries.end = Trees.nil
    entry_trees (Entries.entry k v es) =
        Trees.cons
          (Tree.object (
            Members.member (codes "key") (basic_tree k)
              (Members.member (codes "value") (tree v) Members.end)))
          (entry_trees es)

  -- Texts of bytes, signatures without a character that JSON escapes, and doubles whose text is a
  -- number of JSON, which those of infinities and NaNs are not.
  abbrev pub IsPrintableBasic : Basic → Type 0
  IsPrintableBasic (Basic.number k x) = Unit {0}
  IsPrintableBasic (Basic.real r) =
      (all_number_chars (real_text r) ≡ true)
      × (number_of (real_text r) ≡ some (Tree.fraction (real_text r)))
  IsPrintableBasic (Basic.text t s) = AllBytes s

  abbrev mutual
    pub IsPrintable : Value → Type 0
    IsPrintable (Value.basic b) = IsPrintableBasic b
    IsPrintable (Value.array s xs) = AllPlain s × AllPrintable xs
    IsPrintable (Value.struct s xs) = AllPlain s × AllPrintable xs
    IsPrintable (Value.dict s es) = AllPlain s × EntriesPrintable es
    IsPrintable (Value.variant v) = IsPrintable v

    pub AllPrintable : Values → Type 0
    AllPrintable Values.nil = Unit {0}
    AllPrintable (Values.cons x xs) = IsPrintable x × AllPrintable xs

    pub EntriesPrintable : Entries → Type 0
    EntriesPrintable Entries.end = Unit {0}
    EntriesPrintable (Entries.entry k v es) =
        IsPrintableBasic k × IsPrintable v × EntriesPrintable es
