-- ===== src/Methods/Frames.antt =====
-- What the wrappers of bus methods share: the call, the checks before it, and what is returned.
use Prim.Native.String.{String}
use libultrabus.Common.{ℕ, Bool, true, false, ◌&&◌, Option, none, some, List, if◌then◌else◌}
use libultrabus.Retvalue.{Retvalue, of_value, fail, minus_one}
use libultrabus.Methods.Replies.{Reply}

pub data Arg : Type 0 where
  string_arg : String → Arg
  uint32_arg : ℕ → Arg
  string_array : List String → Arg
  string_dict : List (String × String) → Arg
  variant_arg : ℕ → Arg

-- A method call message.
pub record Call : Type 0 where
  pub destination : String
  pub path : String
  pub interface : String
  pub member : String
  pub args : List Arg
  pub want_reply : Bool

-- DBUS_SERVICE_DBUS, DBUS_PATH_DBUS
abbrev pub bus_call : String → String → List Arg → Call
bus_call interface member args = record {
  destination = "org.freedesktop.DBus";
  path = "/org/freedesktop/DBus";
  interface = interface;
  member = member;
  args = args;
  want_reply = true;
}

abbrev pub bus_method : String → List Arg → Call
bus_method member args = bus_call "org.freedesktop.DBus" member args

-- What a wrapper asks: is_connected, is_connected again when it has to tell why it refuses,
-- dbus_validate_bus_name, and `send` in the asynchronous overloads.
pub record Env : Type 0 where
  pub up : Bool
  pub up_again : Bool
  pub valid : String → Bool
  pub sends : Call → Bool

-- The call that send_and_wait is given, if any, and the result.
pub record Waited (A : Type 0) : Type 0 where
  pub call : Option Call
  pub result : Retvalue A

-- The call that `send` is given, if any, what is returned, and what the user's callback is called
-- with when a reply comes.
pub record Started (A : Type 0) : Type 0 where
  pub call : Option Call
  pub started : Bool
  pub on_reply : Reply A → Option (Retvalue A)

module _ {A : Type 0} where
  -- The frame of a synchronous wrapper that checks a name.
  abbrev pub named : Env → String → String → A → Call → Retvalue A → Waited A
  named env refusal name default call result =
      if env.up && env.valid name then record { call = some call; result = result } else record {
        call = none;
        result =
            fail minus_one (if env.up_again then refusal else "Not connected") (of_value default);
      }

  -- The frame of one that checks no name.
  abbrev pub unnamed : Env → A → Call → Retvalue A → Waited A
  unnamed env default call result =
      if env.up
      then record { call = some call; result = result }
      else record { call = none; result = fail minus_one "Not connected" (of_value default) }

  -- async_call_method, async_call_method_reply_with_void, and the same written out: without a
  -- callback no reply is wanted.
  unfoldable pub start : Env → Call → Option ℕ → (Reply A → Retvalue A) → Started A
  start env call none handler =
      let told = record call { want_reply = false } in
      record { call = some told; started = env.sends told; on_reply = λ reply. none }
  start env call (some callback) handler = record {
    call = some call;
    started = env.sends call;
    on_reply = λ reply. some (handler reply);
  }

  abbrev pub not_started : Started A
  not_started = record { call = none; started = false; on_reply = λ reply. none }

  unfoldable pub start_named : Env → String → Call → Option ℕ → (Reply A → Retvalue A) → Started A
  unfolding start
  start_named env name call callback handler =
      if env.up && env.valid name then start env call callback handler else not_started

  unfoldable pub start_unnamed : Env → Call → Option ℕ → (Reply A → Retvalue A) → Started A
  unfolding start
  start_unnamed env call callback handler =
      if env.up then start env call callback handler else not_started
