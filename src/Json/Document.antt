-- ===== src/Json/Document.antt =====
-- A whole text of JSON (RFC 8259), as a tree: what a reader takes from a text without spaces between
-- its tokens, and the text of a tree. Numbers have no exponent here, and one with a fraction is known
-- by its text.
pub mod RoundTrip
use libultrabus.Common.{
  ℕ, zero, suc, ◌-◌, Bool, true, false, not, ◌&&◌, ◌||◌, Option, none, some, List, [], ◌∷◌, ◌++◌,
  ◌==◌, codes, length, same, if◌then◌else◌,
}
use libultrabus.Common.Int.{ℤ, pos, negsuc}
use libultrabus.Json.{escape_string}
use libultrabus.Json.Reader.{read_string}
use libultrabus.Json.Decimal.{to_text, is_digit, all_digits, leads, is_decimal, number_from}

mutual
  pub data Tree : Type 0 where
    string : List ℕ → Tree
    integer : ℤ → Tree
    fraction : List ℕ → Tree
    boolean : Bool → Tree
    list : Trees → Tree
    object : Members → Tree

  pub data Trees : Type 0 where
    nil : Trees
    cons : Tree → Trees → Trees

  pub data Members : Type 0 where
    end : Members
    member : List ℕ → Tree → Members → Members

-- The text of a tree.
unfoldable mutual
  unfolding to_text

  pub print : Tree → List ℕ
  print (Tree.string s) = b'"' ∷ (escape_string s ++ b'"' ∷ [])
  print (Tree.integer x) = to_text x
  print (Tree.fraction t) = t
  print (Tree.boolean true) = codes "true"
  print (Tree.boolean false) = codes "false"
  print (Tree.list ts) = b'[' ∷ print_all ts
  print (Tree.object ms) = b'{' ∷ print_members ms

  pub print_all : Trees → List ℕ
  print_all Trees.nil = b']' ∷ []
  print_all (Trees.cons t Trees.nil) = print t ++ b']' ∷ []
  print_all (Trees.cons t (Trees.cons u ts)) = print t ++ b',' ∷ print_all (Trees.cons u ts)

  pub print_members : Members → List ℕ
  print_members Members.end = b'}' ∷ []
  print_members (Members.member k t Members.end) =
      b'"' ∷ (escape_string k ++ b'"' ∷ b':' ∷ (print t ++ b'}' ∷ []))
  print_members (Members.member k t (Members.member j u ms)) =
      b'"'
      ∷ (escape_string k ++ b'"' ∷ b':' ∷ (print t ++ b',' ∷ print_members (Members.member j u ms)))

abbrev pub is_number_char : ℕ → Bool
is_number_char c = is_digit c || (c == b'-' || c == b'.')

-- The longest start of a text that may be a number, and the rest.
unfoldable pub take_number : List ℕ → List ℕ × List ℕ
take_number [] = ([], [])
take_number (c ∷ cs) =
    let (n, rest) = take_number cs in if is_number_char c then (c ∷ n, rest) else ([], c ∷ cs)

-- What stands before the first point, and behind it.
abbrev pub split_point : List ℕ → List ℕ × List ℕ
split_point [] = ([], [])
split_point (c ∷ cs) =
    let (before, behind) = split_point cs in if c == b'.' then ([], cs) else (c ∷ before, behind)

-- Digits, a point, and digits.
unfoldable pub is_fraction : List ℕ → Bool
unfolding is_decimal same
is_fraction t =
    let (before, behind) = split_point t in
    is_decimal before && (all_digits behind && not (same behind []))

abbrev pub negated : ℕ → ℤ
negated zero = pos 0
negated (suc n) = negsuc n

unfoldable pub number_of : List ℕ → Option Tree
unfolding is_decimal number_from is_fraction
number_of [] = none
number_of (c ∷ cs) =
    if c == b'-'
    then (if is_decimal cs
        then some (Tree.integer (negated (number_from 0 cs)))
        else if is_fraction cs
        then some (Tree.fraction (c ∷ cs))
        else none)
    else if is_decimal (c ∷ cs)
    then some (Tree.integer (pos (number_from 0 (c ∷ cs))))
    else if is_fraction (c ∷ cs)
    then some (Tree.fraction (c ∷ cs))
    else none

abbrev pub with_rest : {A B : Type 0} → (A → B) → Option (A × List ℕ) → Option (B × List ℕ)
with_rest f none = none
with_rest f (some (a, rest)) = some (f a, rest)

abbrev pub number_found : Option Tree → List ℕ → Option (Tree × List ℕ)
number_found none rest = none
number_found (some t) rest = some (t, rest)

-- What stands behind a word that a text starts with.
unfoldable pub after : List ℕ → List ℕ → Option (List ℕ)
after [] text = some text
after (c ∷ word) [] = none
after (c ∷ word) (d ∷ text) = if c == d then after word text else none

abbrev pub word_found : Tree → Option (List ℕ) → Option (Tree × List ℕ) → Option (Tree × List ℕ)
word_found t none other = other
word_found t (some rest) other = some (t, rest)

-- A word or a number.
unfoldable pub read_plain : List ℕ → Option (Tree × List ℕ)
unfolding take_number number_of after
read_plain text =
    let (n, rest) = take_number text in
    word_found (Tree.boolean true) (after (codes "true") text) (
      word_found (Tree.boolean false) (after (codes "false") text)
        (number_found (number_of n) rest))

-- What follows an element of a list, and a member of an object.
abbrev pub element_read :
    Option (Tree × List ℕ) → (List ℕ → Option (Trees × List ℕ)) → Option (Trees × List ℕ)
element_read none next = none
element_read (some (t, [])) next = none
element_read (some (t, c ∷ rest)) next =
    if c == b']'
    then some (Trees.cons t Trees.nil, rest)
    else if c == b','
    then with_rest (Trees.cons t) (next rest)
    else none

abbrev pub member_read :
    List ℕ
    → Option (Tree × List ℕ)
    → (List ℕ → Option (Members × List ℕ))
    → Option (Members × List ℕ)
member_read k none next = none
member_read k (some (t, [])) next = none
member_read k (some (t, c ∷ rest)) next =
    if c == b'}'
    then some (Members.member k t Members.end, rest)
    else if c == b','
    then with_rest (Members.member k t) (next rest)
    else none

abbrev pub key_read :
    Option (List ℕ × List ℕ)
    → (List ℕ → List ℕ → Option (Members × List ℕ))
    → Option (Members × List ℕ)
key_read none next = none
key_read (some (k, [])) next = none
key_read (some (k, c ∷ rest)) next = if c == b':' then next k rest else none

-- The fuel bounds the size of the tree.
unfoldable mutual
  unfolding read_string read_plain

  pub read : ℕ → List ℕ → Option (Tree × List ℕ)
  read zero text = none
  read (suc fuel) [] = none
  read (suc fuel) (c ∷ text) =
      let elements = read_elements fuel text in
      let members = read_members fuel text in
      if c == b'"'
      then with_rest Tree.string (read_string (length text) text)
      else if c == b'['
      then with_rest Tree.list elements
      else if c == b'{'
      then with_rest Tree.object members
      else read_plain (c ∷ text)

  pub read_elements : ℕ → List ℕ → Option (Trees × List ℕ)
  read_elements zero text = none
  read_elements (suc fuel) [] = none
  read_elements (suc fuel) (c ∷ text) =
      let some_elements = read_more fuel (c ∷ text) in
      if c == b']' then some (Trees.nil, text) else some_elements

  pub read_more : ℕ → List ℕ → Option (Trees × List ℕ)
  read_more zero text = none
  read_more (suc fuel) text = element_read (read fuel text) (read_more fuel)

  pub read_members : ℕ → List ℕ → Option (Members × List ℕ)
  read_members zero text = none
  read_members (suc fuel) [] = none
  read_members (suc fuel) (c ∷ text) =
      let some_members = read_pairs fuel (c ∷ text) in
      if c == b'}' then some (Members.end, text) else some_members

  pub read_pairs : ℕ → List ℕ → Option (Members × List ℕ)
  read_pairs zero text = none
  read_pairs (suc fuel) [] = none
  read_pairs (suc fuel) (c ∷ text) =
      let pairs =
        key_read (read_string (length text) text)
          (λ k rest. member_read k (read fuel rest) (read_pairs fuel)) in
      if c == b'"' then pairs else none

-- A text that is one tree, and nothing else.
abbrev pub whole : Option (Tree × List ℕ) → Option Tree
whole none = none
whole (some (t, [])) = some t
whole (some (t, c ∷ rest)) = none
