-- ===== src/Methods/Replies.antt =====
-- How the replies of the bus become return values: the unnamed namespace of
-- lib/ultrabus/connection.cpp.
use Prim.Native.String.{String}
use Prim.Native.String.{◌++◌ as concat}
use libultrabus.Common.{ℕ, Bool, true, false, List, [], ◌∷◌}
use libultrabus.Retvalue.{Retvalue, of_value, fail, minus_one}
use libultrabus.Matches.Rules.{emplace}

-- A reply as it is read: an error, the value that get_args gives, or the signature of arguments
-- that get_args does not accept.
pub data Reply (A : Type 0) : Type 0 where
  error : (name msg : String) → Reply A
  value : A → Reply A
  invalid : (signature : String) → Reply A

abbrev pub error_text : String → String → String
error_text name msg = concat (concat name ": ") msg

abbrev pub invalid_text : String → String → String
invalid_text expected signature = concat (concat expected signature) "'"

-- sync_call_method and async_call_method; `code` is the type code.
unfoldable pub handle_reply : {A : Type 0} → A → String → Reply A → Retvalue A
handle_reply default code (error name msg) = fail minus_one (error_text name msg) (of_value default)
handle_reply default code (value a) = of_value a
handle_reply default code (invalid signature) =
    fail minus_one
      (invalid_text (concat "Invalid DBus reply argument, expected '%c', got '" code) signature)
      (of_value default)

-- sync_call_method_reply_with_void and async_call_method_reply_with_void: only an error counts.
unfoldable pub handle_void_reply : Reply Bool → Retvalue Bool
handle_void_reply (error name msg) = fail minus_one (error_text name msg) (of_value false)
handle_void_reply (value a) = of_value true
handle_void_reply (invalid signature) = of_value true

unfoldable pub set_of : List String → List String
set_of [] = []
set_of (name ∷ names) = emplace name (set_of names)

unfoldable pub handle_set_string_reply : Reply (List String) → Retvalue (List String)
unfolding set_of
handle_set_string_reply (error name msg) = fail minus_one (error_text name msg) (of_value [])
handle_set_string_reply (value names) = of_value (set_of names)
handle_set_string_reply (invalid signature) =
    fail minus_one (invalid_text "Invalid DBus reply argument, expected 'as', got '" signature)
      (of_value [])

-- Variants are numbers.
unfoldable pub handle_dict_str_variant_reply :
    Reply (List (String × ℕ)) → Retvalue (List (String × ℕ))
handle_dict_str_variant_reply (error name msg) = fail minus_one (error_text name msg) (of_value [])
handle_dict_str_variant_reply (value dict) = of_value dict
handle_dict_str_variant_reply (invalid signature) =
    fail minus_one (invalid_text "Invalid DBus reply argument, expected 'a{sv}', got '" signature)
      (of_value [])
