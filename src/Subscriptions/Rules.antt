-- ===== src/Subscriptions/Rules.antt =====
-- The match rules for different names, paths and signals are different texts.
use Prim.Native.String.{String}
use Prim.Native.String.{◌++◌ as concat}
use text.Mathlib.Text.{◌==◌ as str_eq}
use text.Mathlib.TextEquality.{eq_iff}
use text.Mathlib.TextLemmas.{append_assoc, append_cancel_left}
use libultrabus.Common.{◌≡◌, sym, ap, ◌∙◌, true, false, ◌&&◌, inl, inr, Bool-cases, arith}
use libultrabus.Common.Quotes.{HasNoQuote, quote_splits}
use libultrabus.Subscriptions.{added_rule, removed_rule}

-- What a rule is made of.
abbrev pub shape : String → String → String → String
shape bus_name opath rest =
    concat "type='signal',sender='"
      (concat bus_name (concat "'" (concat ",path='" (concat opath (concat "'" rest)))))

shape_splits :
    (b p r c q s : String)
    → HasNoQuote b
    → HasNoQuote p
    → HasNoQuote c
    → HasNoQuote q
    → shape b p r ≡ shape c q s
    → (b ≡ c) × (p ≡ q) × (r ≡ s)
shape_splits b p r c q s hb hp hc hq e =
    let (x, rest) =
      quote_splits b c _ _ hb hc (append_cancel_left "type='signal',sender='" _ _ e) in
    let (y, end) = quote_splits p q _ _ hp hq (append_cancel_left ",path='" _ _ rest) in (x, y, end)

abbrev pub added_rest : String
added_rest = ",interface='org.freedesktop.DBus.ObjectManager',member='InterfacesAdded'"

abbrev pub removed_rest : String
removed_rest = ",interface='org.freedesktop.DBus.ObjectManager',member='InterfacesRemoved'"

pub added_rule-shape : (b p : String) → added_rule b p ≡ shape b p added_rest
unfolding added_rule
added_rule-shape b p =
    ap (λ x. concat "type='signal',sender='" (concat b x)) (append_assoc "'" ",path='" _)

pub removed_rule-shape : (b p : String) → removed_rule b p ≡ shape b p removed_rest
unfolding removed_rule
removed_rule-shape b p =
    ap (λ x. concat "type='signal',sender='" (concat b x)) (append_assoc "'" ",path='" _)

-- Rules for different keys are different, and so are rules for different signals.
abbrev pub Differ : (String → String → String) → Type 0
Differ rule =
    (b p c q : String)
    → HasNoQuote b
    → HasNoQuote p
    → HasNoQuote c
    → HasNoQuote q
    → (str_eq b c && str_eq p q) ≡ false
    → str_eq (rule b p) (rule c q) ≡ false

same_keys : (b p c q : String) → b ≡ c → p ≡ q → (str_eq b c && str_eq p q) ≡ true
same_keys b p c q x y = let h = (eq_iff b c).1 x in let k = (eq_iff p q).1 y in ground arith

pub shape-Differ :
    (rule : String → String → String) (rest : String)
    → ((b p : String) → rule b p ≡ shape b p rest)
    → Differ rule
shape-Differ rule rest is_shape b p c q hb hp hc hq d =
    elim (Bool-cases (str_eq (rule b p) (rule c q))) [
      | inl e ↦
          let same = (eq_iff (rule b p) (rule c q)).0 e in
          let (x, y, z) =
            shape_splits b p rest c q rest hb hp hc hq (sym (is_shape b p) ∙ same ∙ is_shape c q) in
          let k = same_keys b p c q x y in cc
      | inr e ↦ e
    ]

pub families_differ :
    (b p c q : String)
    → HasNoQuote b
    → HasNoQuote p
    → HasNoQuote c
    → HasNoQuote q
    → str_eq (added_rule b p) (removed_rule c q) ≡ false
families_differ b p c q hb hp hc hq =
    elim (Bool-cases (str_eq (added_rule b p) (removed_rule c q))) [
      | inl e ↦
          let same = (eq_iff (added_rule b p) (removed_rule c q)).0 e in
          let (x, y, z) =
            shape_splits b p added_rest c q removed_rest hb hp hc hq
              (sym (added_rule-shape b p) ∙ same ∙ removed_rule-shape c q) in
          let k = (eq_iff added_rest removed_rest).1 z in cc
      | inr e ↦ e
    ]

pub differ_comm : (a b : String) → str_eq a b ≡ false → str_eq b a ≡ false
differ_comm a b h = elim (Bool-cases (str_eq b a)) [
  | inl e ↦ let same = (eq_iff a b).1 (sym ((eq_iff b a).0 e)) in cc
  | inr e ↦ e
]
