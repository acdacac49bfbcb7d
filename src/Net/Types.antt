-- ===== src/Net/Types.antt =====
-- src/change_lib/message_type.hpp: the messages between client and server, and JSON values as
-- bodies. The conversions between JSON and its binary form are parameters.
use wallchanger.Base.{
  ℕ, true, ◌≡◌, refl, List, String, Option, some, ◌%◌, ◌^◌, nat_ordered, length, none,
  if◌then◌else◌, ◌==◌, string_ordered, Outcome, done, or_fault, bad_access, ◌>>=◌,
}
use wallchanger.Net.Message.{Message, finalize, validate, validate-finalize}

pub data MessageType : Type 0 where
  Server_GetStatus Server_GetPing Client_Accepted Client_AssignID : MessageType
  Client_RegisterWithServer Client_UnregisterWithServer : MessageType
  Get_Next_Wallpaper Get_Previous_Wallpaper Mark_Favorate Get_Current : MessageType
  Create_Collection Change_Active_Collection Rename_Collection List_Collections : MessageType
  Add_To_Collection remove Merge_Collection move Status_Success Status_Failure : MessageType

pub data ServerErrorCode : Type 0 where
  Message_Validation_Error Client_Connect_Error Client_Validation_Error : ServerErrorCode

-- `NLOHMANN_JSON_SERIALIZE_ENUM`.
abbrev pub code_to_json : ServerErrorCode → String
code_to_json Client_Connect_Error = "client_connect_error"
code_to_json Client_Validation_Error = "client_validation_error"
code_to_json Message_Validation_Error = "message_validation_error"

pub record ServerError : Type 0 where
  pub code : ServerErrorCode
  pub what : String

-- The first code for a text that is none of them.
abbrev pub code_from_json : String → ServerErrorCode
code_from_json text =
    if text == "client_connect_error"
    then Client_Connect_Error
    else if text == "client_validation_error"
    then Client_Validation_Error
    else if text == "message_validation_error"
    then Message_Validation_Error
    else Client_Connect_Error

-- The object that is written and read: the keys "code" and "error", which a text may lack.
pub record JsonError : Type 0 where
  pub json_code : Option String
  pub json_error : Option String

unfoldable pub error_to_json : ServerError → JsonError
error_to_json rhs = record { json_code = some (code_to_json rhs.code); json_error = some rhs.what }

-- `none` is the null value, which leaves the error; a key that is missing throws.
unfoldable pub error_from_json : Option JsonError → ServerError → Outcome ServerError
error_from_json none rhs = done rhs
error_from_json (some j) rhs = or_fault bad_access j.json_code >>= λ code.
    or_fault bad_access j.json_error >>= λ what.
    done (record { code = code_from_json code; what = what })

code_from_json-code_to_json : (c : ServerErrorCode) → code_from_json (code_to_json c) ≡ c
code_from_json-code_to_json Client_Connect_Error = refl
code_from_json-code_to_json Client_Validation_Error = refl
code_from_json-code_to_json Message_Validation_Error = refl

-- An error that was written is read back, whatever it is read into.
pub error_from_json-error_to_json :
    (e rhs : ServerError) → error_from_json (some (error_to_json e)) rhs ≡ done e
unfolding error_from_json error_to_json
error_from_json-error_to_json e rhs = rw (code_from_json-code_to_json e.code) refl

module _ {Json : Type 0} (to_cbor : Json → List ℕ) (from_cbor : List ℕ → Option Json) where
  unfoldable pub msg_to_json : Message MessageType → Option Json
  msg_to_json msg = from_cbor msg.body

  unfoldable pub json_to_msg : ℕ → MessageType → Json → Message MessageType
  unfolding finalize
  json_to_msg now type json =
      finalize now (record {
        header = record { id = type; size = 0; hash = 0 };
        time = 0;
        body = to_cbor json;
      })

  -- A JSON value sent as a message is valid, keeps its type, gives its size, and is read back, if
  -- its binary form is.
  pub msg_to_json-json_to_msg :
      (now : ℕ) (type : MessageType) (json : Json)
      → from_cbor (to_cbor json) ≡ some json
      → (validate (json_to_msg now type json) ≡ true)
        × ((json_to_msg now type json).header.id ≡ type)
        × ((json_to_msg now type json).header.size
            ≡ length (json_to_msg now type json).body % 2 ^ 32)
        × (msg_to_json (json_to_msg now type json) ≡ some json)
  unfolding msg_to_json json_to_msg finalize
  msg_to_json-json_to_msg now type json back = (
    validate-finalize now (record {
      header = record { id = type; size = 0; hash = 0 };
      time = 0;
      body = to_cbor json;
    }),
    refl,
    refl,
    back,
  )
