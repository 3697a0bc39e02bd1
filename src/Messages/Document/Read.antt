-- ===== src/Messages/Document/Read.antt =====
-- What a reader of JSON makes of the text of a message.
use libultrabus.Common.{
  ℕ, Bool, true, ◌≡◌, refl, some, List, [], ◌∷◌, codes, append_assoc, append-nil, subst, arith,
  false,
}
use libultrabus.Common.Int.{pos}
use libultrabus.Values.{Values}
use libultrabus.Json.{escape_string}
use libultrabus.Json.Faithful.{AllBytes}
use libultrabus.Json.Decimal.{to_text}
use libultrabus.Json.Document.{Tree, Trees, Members, print, print_members, read}
use libultrabus.Json.Document.RoundTrip.{IsClean, MembersClean, size, read-print}
use libultrabus.Values.Texts.Described.{AllPlain, trees, AllPrintable}
use libultrabus.Values.Texts.Read.{
  escape_string-plain, json_all-print, trees-AllClean, AllPlain-AllBytes,
}
use libultrabus.Messages.Document.{
  MessageType, Header, is_reply, is_error, reply_text, fields_text, message_json,
}

abbrev pub text_member : List ℕ → List ℕ → Members → Members
text_member name value others = Members.member name (Tree.string value) others

-- The fields behind the serial numbers.
abbrev pub last_members : List ℕ → Trees → Members
last_members signature args =
    text_member (codes "signature") signature
      (Members.member (codes "arguments") (Tree.list args) Members.end)

abbrev pub reply_member : Bool → ℕ → Members → Members
reply_member true n others = Members.member (codes "reply_serial") (Tree.integer (pos n)) others
reply_member false n others = others

abbrev pub fields : (ℕ → List ℕ) → Header → Values → Members
fields real_text h args = text_member (codes "destination") h.destination (
    text_member (codes "object_path") h.path (
      text_member (codes "interface") h.interface (
        text_member (codes "name") h.name (
          text_member (codes "sender") h.sender (
            Members.member (codes "serial") (Tree.integer (pos h.serial)) (
              reply_member (is_reply h.type) h.reply_serial
                (last_members h.signature (trees real_text args))))))))

abbrev pub message_tree : (ℕ → List ℕ) → List ℕ → Header → Values → Tree
message_tree real_text type h args =
    Tree.object (text_member (codes "type") type (fields real_text h args))

-- Names, paths and signatures without a character that JSON escapes.
pub record IsPlainHeader (h : Header) : Type 0 where
  pub plain_destination : AllPlain h.destination
  pub plain_path : AllPlain h.path
  pub plain_interface : AllPlain h.interface
  pub plain_name : AllPlain h.name
  pub plain_sender : AllPlain h.sender
  pub plain_signature : AllPlain h.signature

-- The tree that describes a message, except for an error.
abbrev pub described : (ℕ → List ℕ) → MessageType → Header → Values → Tree
described real_text MessageType.method_call h args =
    message_tree real_text (codes "method_call") h args
described real_text MessageType.method_return h args =
    message_tree real_text (codes "method_return") h args
described real_text MessageType.signal h args = message_tree real_text (codes "signal") h args
described real_text t h args =
    Tree.object (text_member (codes "type") (codes "invalid") Members.end)

module _ (real_text : ℕ → List ℕ) (h : Header) (args : Values) (p : IsPlainHeader h)
    (a : AllPrintable real_text args) where
  fields_print :
      (b : Bool)
      → is_reply h.type ≡ b
      → fields_text real_text h args ≡ b',' ∷ print_members (fields real_text h args)
  unfolding fields_text reply_text print to_text escape_string
  fields_print true e = rw e (
      simp (
        escape_string-plain h.destination p.plain_destination,
        escape_string-plain h.path p.plain_path,
        escape_string-plain h.interface p.plain_interface,
        escape_string-plain h.name p.plain_name,
        escape_string-plain h.sender p.plain_sender,
        escape_string-plain h.signature p.plain_signature,
        json_all-print real_text args a,
        append_assoc,
      ))
  fields_print false e = rw e (
      simp (
        escape_string-plain h.destination p.plain_destination,
        escape_string-plain h.path p.plain_path,
        escape_string-plain h.interface p.plain_interface,
        escape_string-plain h.name p.plain_name,
        escape_string-plain h.sender p.plain_sender,
        escape_string-plain h.signature p.plain_signature,
        json_all-print real_text args a,
        append_assoc,
      ))

  message_text :
      (t : MessageType)
      → h.type ≡ t
      → is_error t ≡ false
      → message_json real_text h args ≡ print (described real_text t h args)
  unfolding message_json print escape_string
  message_text MessageType.method_call e n = rw (fields_print _ refl, e) refl
  message_text MessageType.method_return e n = rw (fields_print _ refl, e) refl
  message_text MessageType.signal e n = rw (fields_print _ refl, e) refl
  message_text MessageType.error e n = cc n
  message_text MessageType.invalid e n = rw e refl

  reply_member-MembersClean :
      (b : Bool) (ms : Members) → MembersClean ms → MembersClean (reply_member b h.reply_serial ms)
  reply_member-MembersClean true ms c = (omega arith, tt, c)
  reply_member-MembersClean false ms c = c

  message_tree-IsClean :
      (type : List ℕ) → AllBytes type → IsClean (message_tree real_text type h args)
  message_tree-IsClean type b = (
    omega arith,
    b,
    (
      omega arith,
      AllPlain-AllBytes _ p.plain_destination,
      (
        omega arith,
        AllPlain-AllBytes _ p.plain_path,
        (
          omega arith,
          AllPlain-AllBytes _ p.plain_interface,
          (
            omega arith,
            AllPlain-AllBytes _ p.plain_name,
            (
              omega arith,
              AllPlain-AllBytes _ p.plain_sender,
              (
                omega arith,
                tt,
                reply_member-MembersClean (is_reply h.type) _ (
                  omega arith,
                  AllPlain-AllBytes _ p.plain_signature,
                  (omega arith, trees-AllClean real_text args a, tt),
                ),
              ),
            ),
          ),
        ),
      ),
    ),
  )

  described-IsClean : (t : MessageType) → IsClean (described real_text t h args)
  described-IsClean MessageType.method_call =
      message_tree-IsClean (codes "method_call") (omega arith)
  described-IsClean MessageType.method_return =
      message_tree-IsClean (codes "method_return") (omega arith)
  described-IsClean MessageType.signal = message_tree-IsClean (codes "signal") (omega arith)
  described-IsClean MessageType.error = omega arith
  described-IsClean MessageType.invalid = omega arith

-- The JSON text of a message that is no error is read as one object with the header fields and the
-- arguments in their order, and with the reply serial if it is a method return; of an invalid
-- message it is an object with the type alone. The names, the paths and the signature hold no
-- character that JSON escapes, and the arguments are such that their own texts can be read. The fuel
-- is the size of the tree.
pub read-message_json :
    (real_text : ℕ → List ℕ) (h : Header) (args : Values)
    → is_error h.type ≡ false
    → IsPlainHeader h
    → AllPrintable real_text args
    → let t = described real_text h.type h args in
      read (size t) (message_json real_text h args) ≡ some (t, [])
read-message_json real_text h args n p a =
    let t = described real_text h.type h args in
    rw (message_text real_text h args p a h.type refl n) (
      subst (λ text. read (size t) text ≡ some (t, [])) (append-nil (print t))
        (read-print (size t) t [] (described-IsClean real_text h args p a h.type) tt (omega arith)))
