-- ===== src/Messages/Document.antt =====
-- The JSON text of a message: message::to_json of lib/ultrabus/message.cpp, with the header fields
-- and the arguments that libdbus gives.
pub mod Read
pub mod Broken
use libultrabus.Common.{ℕ, Bool, true, false, List, [], ◌∷◌, ◌++◌, codes}
use libultrabus.Values.{Value, Values}
use libultrabus.Values.Texts.{json_all}
use libultrabus.Json.Decimal.{decimal}

-- dbus_message_get_type
pub data MessageType : Type 0 where
  invalid method_call method_return signal error : MessageType

-- A field that a message does not have is the empty text.
pub record Header : Type 0 where
  pub type : MessageType
  pub error_name : List ℕ
  pub destination : List ℕ
  pub path : List ℕ
  pub interface : List ℕ
  pub name : List ℕ
  pub sender : List ℕ
  pub serial : ℕ
  pub reply_serial : ℕ
  pub signature : List ℕ

-- What stands for the type, and whether the text is at its end there.
abbrev pub type_text : MessageType → List ℕ → List ℕ
type_text MessageType.method_call error_name = codes "\"method_call\""
type_text MessageType.method_return error_name = codes "\"method_return\""
type_text MessageType.signal error_name = codes "\"signal\""
type_text MessageType.error error_name = codes "\"error\",\"error_name\":\"" ++ error_name
type_text MessageType.invalid error_name = codes "\"invalid\"}"

abbrev pub is_reply : MessageType → Bool
is_reply MessageType.method_return = true
is_reply MessageType.error = true
is_reply t = false

abbrev pub is_error : MessageType → Bool
is_error MessageType.error = true
is_error t = false

unfoldable pub reply_text : Bool → ℕ → List ℕ
unfolding decimal
reply_text true reply_serial = codes ",\"reply_serial\":" ++ decimal reply_serial
reply_text false reply_serial = []

-- All that follows the type.
unfoldable pub fields_text : (ℕ → List ℕ) → Header → Values → List ℕ
unfolding decimal reply_text json_all
fields_text real_text h args =
    codes ",\"destination\":\""
    ++ (h.destination
        ++ (codes "\",\"object_path\":\""
            ++ (h.path
                ++ (codes "\",\"interface\":\""
                    ++ (h.interface
                        ++ (codes "\",\"name\":\""
                            ++ (h.name
                                ++ (codes "\",\"sender\":\""
                                    ++ (h.sender
                                        ++ (codes "\",\"serial\":"
                                            ++ (decimal h.serial
                                                ++ (reply_text (is_reply h.type) h.reply_serial
                                                    ++ (codes ",\"signature\":\""
                                                        ++ (h.signature
                                                            ++ (codes "\",\"arguments\":["
                                                            ++ (json_all real_text args
                                                            ++ codes "]}"))))))))))))))))

abbrev pub ended : MessageType → List ℕ → List ℕ
ended MessageType.invalid fields = []
ended t fields = fields

unfoldable pub message_json : (ℕ → List ℕ) → Header → Values → List ℕ
unfolding fields_text
message_json real_text h args =
    codes "{\"type\":"
    ++ (type_text h.type h.error_name ++ ended h.type (fields_text real_text h args))
