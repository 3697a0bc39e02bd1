-- ===== src/Values/Texts/Read.antt =====
-- What the JSON text of a value says.
use libultrabus.Common.{
  ℕ, ◌≡◌, refl, sym, ap, ◌∙◌, some, List, [], ◌∷◌, ◌++◌, codes, append_assoc, arith, Bool-cases,
  inl, inr,
}
use libultrabus.Common.Int.{ℤ}
use libultrabus.Numbers.{Kind}
use libultrabus.Values.{Text, Basic, Value, Values, Entries, code_of_kind, code_of_text}
use libultrabus.Json.{escape_char, escape_string}
use libultrabus.Json.Faithful.{AllBytes}
use libultrabus.Json.Document.{Tree, Trees, Members, print, print_all, read}
use libultrabus.Json.Document.RoundTrip.{IsClean, AllClean, size, read-print, Stops}
use libultrabus.Values.Texts.{is_true, basic_json, json, json_all, json_entries, json_entry}
use libultrabus.Values.Texts.Described.{
  typed, number_name, text_name, number_tree, AllPlain, basic_tree, tree, trees, entry_trees,
  IsPrintableBasic, IsPrintable, AllPrintable, EntriesPrintable,
}

pub escape_string-plain : (s : List ℕ) → AllPlain s → escape_string s ≡ s
unfolding escape_string escape_char
escape_string-plain [] h = refl
escape_string-plain (c ∷ cs) h = rw (h.0, escape_string-plain cs h.2) refl

pub AllPlain-AllBytes : (s : List ℕ) → AllPlain s → AllBytes s
AllPlain-AllBytes [] h = tt
AllPlain-AllBytes (c ∷ cs) h = (h.1, AllPlain-AllBytes cs h.2)

-- A container's text, where nothing in the signature is escaped.
print_container :
    (name sig body : List ℕ) (ts : Trees)
    → AllPlain sig
    → print_all ts ≡ body ++ b']' ∷ []
    → print (typed name sig (Tree.list ts))
      ≡ codes "{\"type\":\""
        ++ (escape_string name
            ++ (codes "\",\"signature\":\""
                ++ (sig ++ (codes "\",\"value\":[" ++ (body ++ codes "]}")))))
unfolding escape_string
print_container name sig body ts p h =
    let plain = escape_string-plain sig p in unfold print in simp (plain, h, append_assoc)

print_variant :
    (t : Tree)
    → print (typed (codes "variant") (b'v' ∷ []) t)
      ≡ codes "{\"type\":\"variant\",\"signature\":\"v\",\"value\":" ++ (print t ++ b'}' ∷ [])
print_variant t = unfold print escape_string in refl

print_none : print_all Trees.nil ≡ b']' ∷ []
unfolding print
print_none = refl

print_one : (t : Tree) → print_all (Trees.cons t Trees.nil) ≡ print t ++ b']' ∷ []
unfolding print
print_one t = refl

print_more :
    (t u : Tree) (ts : Trees) (one others : List ℕ)
    → print t ≡ one
    → print_all (Trees.cons u ts) ≡ others ++ b']' ∷ []
    → print_all (Trees.cons t (Trees.cons u ts)) ≡ (one ++ b',' ∷ others) ++ b']' ∷ []
print_more t u ts one others h k =
    unfold print in rw (h, k, append_assoc one (b',' ∷ others) (b']' ∷ [])) refl

abbrev entry_tree : Tree → Tree → Tree
entry_tree k v =
    Tree.object (Members.member (codes "key") k (Members.member (codes "value") v Members.end))

print_entry : (k v : Tree) → print (entry_tree k v) ≡ json_entry (print k) (print v)
print_entry k v = unfold print escape_string in refl

module _ (real_text : ℕ → List ℕ) where
  basic_json-print : (b : Basic) → basic_json real_text b ≡ print (basic_tree real_text b)
  unfolding basic_json
  basic_json-print (Basic.number Kind.boolean x) = elim (Bool-cases (is_true x)) [
    | inl e ↦ unfold print escape_string in rw e refl
    | inr e ↦ unfold print escape_string in rw e refl
  ]
  basic_json-print (Basic.number Kind.byte x) = unfold print escape_string in refl
  basic_json-print (Basic.number Kind.i16 x) = unfold print escape_string in refl
  basic_json-print (Basic.number Kind.u16 x) = unfold print escape_string in refl
  basic_json-print (Basic.number Kind.i32 x) = unfold print escape_string in refl
  basic_json-print (Basic.number Kind.u32 x) = unfold print escape_string in refl
  basic_json-print (Basic.number Kind.i64 x) = unfold print escape_string in refl
  basic_json-print (Basic.number Kind.u64 x) = unfold print escape_string in refl
  basic_json-print (Basic.number Kind.unix_fd x) = unfold print escape_string in refl
  basic_json-print (Basic.real r) = unfold print escape_string in refl
  basic_json-print (Basic.text Text.string s) =
      unfold print escape_string in rw (append_assoc (escape_string s) (b'"' ∷ []) (b'}' ∷ [])) refl
  basic_json-print (Basic.text Text.opath s) =
      unfold print escape_string in rw (append_assoc (escape_string s) (b'"' ∷ []) (b'}' ∷ [])) refl
  basic_json-print (Basic.text Text.type_signature s) =
      unfold print escape_string in rw (append_assoc (escape_string s) (b'"' ∷ []) (b'}' ∷ [])) refl

  mutual
    unfolding json

    json-print : (v : Value) → IsPrintable real_text v → json real_text v ≡ print (tree real_text v)
    json-print (Value.basic b) h = basic_json-print b
    json-print (Value.array s xs) h =
        sym (print_container (codes "array") s _ (trees real_text xs) h.0 (json_all-print xs h.1))
    json-print (Value.struct s xs) h =
        sym (print_container (codes "struct") s _ (trees real_text xs) h.0 (json_all-print xs h.1))
    json-print (Value.dict s es) h = sym (
        print_container (codes "dict") s _ (entry_trees real_text es) h.0
          (json_entries-print es h.1))
    json-print (Value.variant v) h = rw (json-print v h) (sym (print_variant (tree real_text v)))

    pub json_all-print :
        (xs : Values)
        → AllPrintable real_text xs
        → print_all (trees real_text xs) ≡ json_all real_text xs ++ b']' ∷ []
    json_all-print Values.nil h = print_none
    json_all-print (Values.cons x Values.nil) h =
        rw (json-print x h.0) (print_one (tree real_text x))
    json_all-print (Values.cons x (Values.cons y ys)) h =
        print_more (tree real_text x) (tree real_text y) (trees real_text ys) _ _
          (sym (json-print x h.0)) (json_all-print (Values.cons y ys) h.1)

    json_entries-print :
        (es : Entries)
        → EntriesPrintable real_text es
        → print_all (entry_trees real_text es) ≡ json_entries real_text es ++ b']' ∷ []
    json_entries-print Entries.end h = print_none
    json_entries-print (Entries.entry k v Entries.end) h =
        rw (basic_json-print k, json-print v h.1)
          (print_one (entry_tree (basic_tree real_text k) (tree real_text v))
            ∙ ap (λ t. t ++ b']' ∷ []) (print_entry (basic_tree real_text k) (tree real_text v)))
    json_entries-print (Entries.entry k v (Entries.entry j w es)) h =
        print_more (entry_tree (basic_tree real_text k) (tree real_text v))
          (entry_tree (basic_tree real_text j) (tree real_text w)) (entry_trees real_text es)
          (json_entry (basic_json real_text k) (json real_text v)) _
          (rw (basic_json-print k, json-print v h.1)
            (print_entry (basic_tree real_text k) (tree real_text v)))
          (json_entries-print (Entries.entry j w es) h.2)

  name_bytes : (k : Kind) → AllBytes (number_name k) × AllBytes (code_of_kind k ∷ [])
  name_bytes Kind.boolean = omega arith
  name_bytes k = omega arith

  text_bytes : (t : Text) → AllBytes (text_name t) × AllBytes (code_of_text t ∷ [])
  text_bytes Text.string = omega arith
  text_bytes t = omega arith

  number_tree-IsClean : (k : Kind) (x : ℤ) → IsClean (number_tree k x)
  number_tree-IsClean Kind.boolean x = tt
  number_tree-IsClean k x = tt

  typed-IsClean :
      (name sig : List ℕ) (t : Tree)
      → AllBytes name
      → AllBytes sig
      → IsClean t
      → IsClean (typed name sig t)
  typed-IsClean name sig t n s c = (omega arith, n, (omega arith, s, (omega arith, c, tt)))

  basic_tree-IsClean : (b : Basic) → IsPrintableBasic real_text b → IsClean (basic_tree real_text b)
  basic_tree-IsClean (Basic.number k x) h =
      typed-IsClean (number_name k) (code_of_kind k ∷ []) (number_tree k x) (name_bytes k).0
        (name_bytes k).1 (number_tree-IsClean k x)
  basic_tree-IsClean (Basic.real r) h =
      typed-IsClean (codes "double") (b'd' ∷ []) (Tree.fraction (real_text r)) (omega arith)
        (omega arith) h
  basic_tree-IsClean (Basic.text t s) h =
      typed-IsClean (text_name t) (code_of_text t ∷ []) (Tree.string s) (text_bytes t).0
        (text_bytes t).1 h

  mutual
    tree-IsClean : (v : Value) → IsPrintable real_text v → IsClean (tree real_text v)
    tree-IsClean (Value.basic b) h = basic_tree-IsClean b h
    tree-IsClean (Value.array s xs) h =
        typed-IsClean (codes "array") s (Tree.list (trees real_text xs)) (omega arith)
          (AllPlain-AllBytes s h.0) (trees-AllClean xs h.1)
    tree-IsClean (Value.struct s xs) h =
        typed-IsClean (codes "struct") s (Tree.list (trees real_text xs)) (omega arith)
          (AllPlain-AllBytes s h.0) (trees-AllClean xs h.1)
    tree-IsClean (Value.dict s es) h =
        typed-IsClean (codes "dict") s (Tree.list (entry_trees real_text es)) (omega arith)
          (AllPlain-AllBytes s h.0) (entry_trees-AllClean es h.1)
    tree-IsClean (Value.variant v) h =
        typed-IsClean (codes "variant") (b'v' ∷ []) (tree real_text v) (omega arith) (omega arith)
          (tree-IsClean v h)

    pub trees-AllClean : (xs : Values) → AllPrintable real_text xs → AllClean (trees real_text xs)
    trees-AllClean Values.nil h = tt
    trees-AllClean (Values.cons x xs) h = (tree-IsClean x h.0, trees-AllClean xs h.1)

    entry_trees-AllClean :
        (es : Entries) → EntriesPrintable real_text es → AllClean (entry_trees real_text es)
    entry_trees-AllClean Entries.end h = tt
    entry_trees-AllClean (Entries.entry k v es) h = (
      (omega arith, basic_tree-IsClean k h.0, (omega arith, tree-IsClean v h.1, tt)),
      entry_trees-AllClean es h.2,
    )

-- The JSON text of a value, whatever text follows behind it, is read as one object with the type,
-- the signature and the value, and the members of a container in their order: if its texts are
-- bytes, its signatures hold no character that JSON escapes, and its doubles are finite, so that
-- what std::to_string makes of them is a number of JSON. The fuel is the size of the tree.
pub read-json :
    (real_text : ℕ → List ℕ) (v : Value) (rest : List ℕ)
    → IsPrintable real_text v
    → Stops rest
    → read (size (tree real_text v)) (json real_text v ++ rest) ≡ some (tree real_text v, rest)
read-json real_text v rest h s =
    rw (json-print real_text v h)
      (read-print _ (tree real_text v) rest (tree-IsClean real_text v h) s (omega arith))
