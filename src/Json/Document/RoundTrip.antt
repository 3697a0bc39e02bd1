-- ===== src/Json/Document/RoundTrip.antt =====
-- The text of a tree read back.
use libultrabus.Common.{
  ℕ, zero, suc, ◌+◌, ◌≤◌, ◌≡◌, refl, Bool, true, false, ◌&&◌, some, List, [], ◌∷◌, ◌++◌, ◌==◌,
  append_assoc, arith, Bool-cases, ==_iff, inl, inr,
}
use libultrabus.Common.Int.{ℤ, pos, negsuc}
use libultrabus.Json.{escape_string}
use libultrabus.Json.Faithful.{AllBytes, read_string-quoted}
use libultrabus.Json.Decimal.{
  decimal, to_text, all_digits, is_decimal, number_from, decimal-is_decimal, all_digits-decimal,
  number_from-decimal,
}
use libultrabus.Json.Document.{
  Tree, Trees, Members, print, print_all, print_members, is_number_char, take_number, number_of,
  after, read_plain, read, read_elements, read_more, read_members, read_pairs,
}

-- A text that a number may end before.
abbrev pub Stops : List ℕ → Type 0
Stops [] = Unit {0}
Stops (c ∷ rest) = is_number_char c ≡ false

abbrev pub all_number_chars : List ℕ → Bool
all_number_chars [] = true
all_number_chars (c ∷ cs) = is_number_char c && all_number_chars cs

-- A tree whose strings are bytes, and whose fractions are numbers.
abbrev mutual
  pub IsClean : Tree → Type 0
  IsClean (Tree.string s) = AllBytes s
  IsClean (Tree.integer x) = Unit {0}
  IsClean (Tree.fraction t) = (all_number_chars t ≡ true) × (number_of t ≡ some (Tree.fraction t))
  IsClean (Tree.boolean b) = Unit {0}
  IsClean (Tree.list ts) = AllClean ts
  IsClean (Tree.object ms) = MembersClean ms

  pub AllClean : Trees → Type 0
  AllClean Trees.nil = Unit {0}
  AllClean (Trees.cons t ts) = IsClean t × AllClean ts

  pub MembersClean : Members → Type 0
  MembersClean Members.end = Unit {0}
  MembersClean (Members.member k t ms) = AllBytes k × IsClean t × MembersClean ms

abbrev mutual
  pub size : Tree → ℕ
  size (Tree.list ts) = 2 + sizes ts
  size (Tree.object ms) = 2 + member_sizes ms
  size (Tree.string s) = 1
  size (Tree.integer x) = 1
  size (Tree.fraction t) = 1
  size (Tree.boolean b) = 1

  pub sizes : Trees → ℕ
  sizes Trees.nil = 1
  sizes (Trees.cons t ts) = 1 + size t + sizes ts

  pub member_sizes : Members → ℕ
  member_sizes Members.end = 1
  member_sizes (Members.member k t ms) = 1 + size t + member_sizes ms

take_number-append :
    (n rest : List ℕ) → all_number_chars n ≡ true → Stops rest → take_number (n ++ rest) ≡ (n, rest)
unfolding take_number
take_number-append [] [] h s = refl
take_number-append [] (c ∷ rest) h s = rw s refl
take_number-append (c ∷ cs) rest h s = ground (arith, take_number-append cs rest)

-- What tells a number from the other tokens.
record IsPlain (c : ℕ) : Type 0 where
  no_string : (c == b'"') ≡ false
  no_list : (c == b'[') ≡ false
  no_object : (c == b'{') ≡ false
  no_true : (b't' == c) ≡ false
  no_false : (b'f' == c) ≡ false

number_char-IsPlain : (c : ℕ) → is_number_char c ≡ true → IsPlain c
number_char-IsPlain c h = record {
  no_string = ground arith;
  no_list = ground arith;
  no_object = ground arith;
  no_true = ground arith;
  no_false = ground arith;
}

number_read :
    (fuel : ℕ) (n rest : List ℕ) (t : Tree)
    → all_number_chars n ≡ true
    → number_of n ≡ some t
    → Stops rest
    → read (suc fuel) (n ++ rest) ≡ some (t, rest)
unfolding read
number_read fuel [] rest t h k s = unfold number_of in cc
number_read fuel (c ∷ cs) rest t h k s =
    let first : is_number_char c ≡ true = ground arith in
    let p = number_char-IsPlain c first in
    rw
      (
        p.no_string,
        p.no_list,
        p.no_object,
        read_plain,
        after,
        take_number-append (c ∷ cs) rest h s,
        k,
        p.no_true,
        p.no_false,
      )
      refl

all_number_chars-digits : (cs : List ℕ) → all_digits cs ≡ true → all_number_chars cs ≡ true
all_number_chars-digits [] h = refl
all_number_chars-digits (c ∷ cs) h = ground (arith, all_number_chars-digits cs)

all_number_chars-to_text : (x : ℤ) → all_number_chars (to_text x) ≡ true
unfolding to_text
all_number_chars-to_text (pos n) = all_number_chars-digits (decimal n) (all_digits-decimal n)
all_number_chars-to_text (negsuc n) =
    all_number_chars-digits (decimal (suc n)) (all_digits-decimal (suc n))

is_decimal-sign : (c : ℕ) (cs : List ℕ) → is_decimal (c ∷ cs) ≡ true → (c == b'-') ≡ false
unfolding is_decimal
is_decimal-sign c cs h = ground arith

decimal_number :
    (cs : List ℕ)
    → is_decimal cs ≡ true
    → number_of cs ≡ some (Tree.integer (pos (number_from 0 cs)))
unfolding number_of
decimal_number [] h = unfold is_decimal in cc
decimal_number (c ∷ cs) h = rw (is_decimal-sign c cs h, h) refl

number_of-to_text : (x : ℤ) → number_of (to_text x) ≡ some (Tree.integer x)
unfolding to_text
number_of-to_text (pos n) = rw (decimal_number _ (decimal-is_decimal n), number_from-decimal n) refl
number_of-to_text (negsuc n) =
    unfold number_of in rw (decimal-is_decimal (suc n), number_from-decimal (suc n)) refl

-- An integer, read back behind which the text goes on.
pub read-to_text :
    (fuel : ℕ) (x : ℤ) (rest : List ℕ)
    → Stops rest
    → read (suc fuel) (to_text x ++ rest) ≡ some (Tree.integer x, rest)
read-to_text fuel x rest s =
    number_read fuel (to_text x) rest _ (all_number_chars-to_text x) (number_of-to_text x) s

-- A text that starts like a list that is not empty.
elements_more :
    (fuel : ℕ) (text : List ℕ) {r : Trees × List ℕ}
    → read_more fuel text ≡ some r
    → read_elements (suc fuel) text ≡ some r
unfolding read
elements_more zero text h = cc
elements_more (suc zero) text h = cc
elements_more (suc (suc fuel)) [] h = cc
elements_more (suc (suc fuel)) (c ∷ text) h = elim (Bool-cases (c == b']')) [
  | inl e ↦
      let p : c ≡ b']' = (==_iff c b']').0 e in
      let q = rw p at h in unfold read_plain take_number number_of after in cc
  | inr e ↦ rw e h
]

members_more :
    (fuel : ℕ) (text : List ℕ) {r : Members × List ℕ}
    → read_pairs fuel text ≡ some r
    → read_members (suc fuel) text ≡ some r
unfolding read
members_more zero text h = cc
members_more (suc fuel) [] h = cc
members_more (suc fuel) (c ∷ text) h = elim (Bool-cases (c == b'}')) [
  | inl e ↦ let p : c ≡ b'}' = (==_iff c b'}').0 e in let q = rw p at h in cc
  | inr e ↦ rw e h
]

mutual
  unfolding read print

  pub read-print :
      (fuel : ℕ) (t : Tree) (rest : List ℕ)
      → IsClean t
      → Stops rest
      → size t ≤ fuel
      → read fuel (print t ++ rest) ≡ some (t, rest)
  read-print zero (Tree.string s) rest c st h = absurd (omega arith)
  read-print zero (Tree.integer x) rest c st h = absurd (omega arith)
  read-print zero (Tree.fraction x) rest c st h = absurd (omega arith)
  read-print zero (Tree.boolean b) rest c st h = absurd (omega arith)
  read-print zero (Tree.list ts) rest c st h = absurd (omega arith)
  read-print zero (Tree.object ms) rest c st h = absurd (omega arith)
  read-print (suc fuel) (Tree.string s) rest c st h =
      rw (append_assoc (escape_string s) (b'"' ∷ []) rest, read_string-quoted s rest c) refl
  read-print (suc fuel) (Tree.integer x) rest c st h = read-to_text fuel x rest st
  read-print (suc fuel) (Tree.fraction x) rest c st h = number_read fuel x rest _ c.0 c.1 st
  read-print (suc fuel) (Tree.boolean true) rest c st h = refl
  read-print (suc fuel) (Tree.boolean false) rest c st h = refl
  read-print (suc zero) (Tree.list ts) rest c st h = absurd (omega arith)
  read-print (suc (suc fuel)) (Tree.list Trees.nil) rest c st h = refl
  read-print (suc (suc fuel)) (Tree.list (Trees.cons t ts)) rest c st h =
      rw (elements_more fuel _ (more-print fuel t ts rest c.0 c.1 (omega arith))) refl
  read-print (suc zero) (Tree.object ms) rest c st h = absurd (omega arith)
  read-print (suc (suc fuel)) (Tree.object Members.end) rest c st h = refl
  read-print (suc (suc fuel)) (Tree.object (Members.member k t ms)) rest c st h =
      rw (members_more fuel _ (pairs-print fuel k t ms rest c.0 c.1 c.2 (omega arith))) refl

  more-print :
      (fuel : ℕ) (t : Tree) (ts : Trees) (rest : List ℕ)
      → IsClean t
      → AllClean ts
      → 1 + size t + sizes ts ≤ fuel
      → read_more fuel (print_all (Trees.cons t ts) ++ rest) ≡ some (Trees.cons t ts, rest)
  more-print zero t ts rest c cs h = absurd (omega arith)
  more-print (suc fuel) t Trees.nil rest c cs h =
      rw
        (
          append_assoc (print t) (b']' ∷ []) rest,
          read-print fuel t (b']' ∷ rest) c refl (omega arith),
        )
        refl
  more-print (suc fuel) t (Trees.cons u ts) rest c cs h =
      rw
        (
          append_assoc (print t) (b',' ∷ print_all (Trees.cons u ts)) rest,
          read-print fuel t (b',' ∷ (print_all (Trees.cons u ts) ++ rest)) c refl (omega arith),
          more-print fuel u ts rest cs.0 cs.1 (omega arith),
        )
        refl

  pairs-print :
      (fuel : ℕ) (k : List ℕ) (t : Tree) (ms : Members) (rest : List ℕ)
      → AllBytes k
      → IsClean t
      → MembersClean ms
      → 1 + size t + member_sizes ms ≤ fuel
      → read_pairs fuel (print_members (Members.member k t ms) ++ rest)
        ≡ some (Members.member k t ms, rest)
  pairs-print zero k t ms rest b c cs h = absurd (omega arith)
  pairs-print (suc fuel) k t Members.end rest b c cs h =
      rw
        (
          append_assoc (escape_string k) (b'"' ∷ b':' ∷ (print t ++ b'}' ∷ [])) rest,
          read_string-quoted k (b':' ∷ ((print t ++ b'}' ∷ []) ++ rest)) b,
          append_assoc (print t) (b'}' ∷ []) rest,
          read-print fuel t (b'}' ∷ rest) c refl (omega arith),
        )
        refl
  pairs-print (suc fuel) k t (Members.member j u ms) rest b c cs h =
      let others = print_members (Members.member j u ms) in
      rw
        (
          append_assoc (escape_string k) (b'"' ∷ b':' ∷ (print t ++ b',' ∷ others)) rest,
          read_string-quoted k (b':' ∷ ((print t ++ b',' ∷ others) ++ rest)) b,
          append_assoc (print t) (b',' ∷ others) rest,
          read-print fuel t (b',' ∷ (others ++ rest)) c refl (omega arith),
          pairs-print fuel j u ms rest cs.0 cs.1 cs.2 (omega arith),
        )
        refl
