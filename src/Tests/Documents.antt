-- ===== src/Tests/Documents.antt =====
-- JSON texts of values and of messages at concrete inputs.
use libultrabus.Common.{ℕ, List, [], ◌++◌, ◌≡◌, refl, codes, some, none, arith}
use libultrabus.Common.Int.{pos, negsuc}
use libultrabus.Numbers.{Kind}
use libultrabus.Values.{Text, Basic, Value, Values, Entries}
use libultrabus.Json.Decimal.{decimal}
use libultrabus.Json.Document.{read, number_of}
use libultrabus.Json.Document.RoundTrip.{size}
use libultrabus.Values.Texts.{json, string}
use libultrabus.Values.Texts.Described.{tree, IsPrintable}
use libultrabus.Values.Texts.Read.{read-json}
use libultrabus.Messages.Document.{MessageType, Header, message_json}
use libultrabus.Messages.Document.Broken.{error-message_json}
use libultrabus.Messages.Document.Read.{IsPlainHeader, described, read-message_json}

-- Every double is printed as 0.500000.
abbrev half : ℕ → List ℕ
half r = codes "0.500000"

abbrev mixed : Value
mixed = Value.struct (codes "(vda{si})") (
    Values.cons (Value.variant (Value.basic (Basic.text Text.string (codes "a\"b")))) (
      Values.cons (Value.basic (Basic.real 0)) (
        Values.cons
          (Value.dict (codes "a{si}") (
            Entries.entry (Basic.text Text.string (codes "k"))
              (Value.basic (Basic.number Kind.i32 (negsuc 41))) Entries.end))
          Values.nil)))

mixed-IsPrintable : IsPrintable half mixed
unfolding number_of
mixed-IsPrintable = ground arith

mixed_run :
    json half (Value.basic (Basic.number Kind.i32 (negsuc 41)))
    ≡ codes "{\"type\":\"int32\",\"signature\":\"i\",\"value\":-42}"
unfolding json decimal
mixed_run = refl

mixed_shown : string half mixed ≡ codes "(a\"b,0.500000,[{\"k\":-42}])"
unfolding string decimal
mixed_shown = refl

read-json_example :
    read (size (tree half mixed)) (json half mixed ++ []) ≡ some (tree half mixed, [])
read-json_example = read-json half mixed [] mixed-IsPrintable tt

abbrev sample : MessageType → Header
sample type = record {
  type = type;
  error_name = codes "org.example.Error";
  destination = codes ":1.7";
  path = [];
  interface = [];
  name = [];
  sender = codes ":1.3";
  serial = 12;
  reply_serial = 7;
  signature = codes "i";
}

abbrev arguments : Values
arguments = Values.cons (Value.basic (Basic.number Kind.i32 (pos 5))) Values.nil

sample-IsPlainHeader : (t : MessageType) → IsPlainHeader (sample t)
sample-IsPlainHeader t = ground arith

read-message_json_example :
    read
      (size (described half MessageType.method_return (sample MessageType.method_return) arguments))
      (message_json half (sample MessageType.method_return) arguments)
    ≡ some
        (described half MessageType.method_return (sample MessageType.method_return) arguments, [])
read-message_json_example =
    read-message_json half (sample MessageType.method_return) arguments refl
      (sample-IsPlainHeader MessageType.method_return) (tt, tt)

error-message_json_example :
    read 100 (message_json half (sample MessageType.error) arguments) ≡ none
error-message_json_example =
    error-message_json 100 half (sample MessageType.error) arguments refl (ground arith)
