-- ===== src/Windows/Text.antt =====
-- The texts of src/change_lib/platform/win32/helper.cpp, and what service.cpp writes into the event
-- log. What Windows answers is an argument; a message box is a value.
use wallchanger.Base.{
  ℕ, ◌+◌, ◌*◌, ◌/◌, Bool, true, false, List, [], ◌∷◌, ◌++◌, String, Option, none, some,
  if◌then◌else◌, length, replicate, nat_ordered, ◌==◌, ltb, Outcome, done, fault, overrun,
  use_after_free, not,
}
use wallchanger.Platform.Errors.{Conversion, written}

-- A text converted in two calls, with the box that is shown where the second one gives 0.
abbrev pub convert : String → (Bool → List ℕ → ℕ → ℕ × List ℕ) → List ℕ → List ℕ × List String
convert func call [] = ([], [])
convert func call (c ∷ text) =
    let size_needed = (call false (c ∷ text) 0).0 in
    let r = call false (c ∷ text) size_needed in
    (written r.1 (replicate size_needed 0), if r.0 == 0 then func ∷ [] else [])

unfoldable pub to_utf16 : Conversion → List ℕ → List ℕ × List String
to_utf16 api text = convert "MultiByteToWideChar" api.multi_byte_to_wide_char text

unfoldable pub to_utf8 : Conversion → List ℕ → List ℕ × List String
to_utf8 api text = convert "WideCharToMultiByte" api.wide_char_to_multi_byte text

abbrev pub buf_size : ℕ
buf_size = 1024 * 64

pub record Failure : Type 0 where
  pub func_name : String
  pub id : ℕ
  pub text : List ℕ

-- `FormatMessageW` gives the characters for a number and the size it is told. The memory has half
-- as many characters.
unfoldable pub fmt_msg :
    Conversion → (ℕ → ℕ → List ℕ) → ℕ → String → ℕ → Outcome (Failure × List String)
unfolding to_utf8
fmt_msg api format_message last_error func_name status =
    let id = if status == 0 then last_error else status in
    let text = format_message id buf_size in
    if ltb (buf_size / 2) (length text + 1)
    then fault overrun
    else let t = to_utf8 api text in
      done (record { func_name = func_name; id = id; text = t.0 }, t.1)

-- The results of `UuidCreate` and of `UuidToString`, which allocates its text.
unfoldable pub get_uuid : Bool → Option String → String
get_uuid false text = ""
get_uuid true none = ""
get_uuid true (some text) = text

-- Whether the event source is opened. `strings` points into texts that end with their statements,
-- and `ReportEvent` reads them.
unfoldable pub report_event : Bool → Outcome (Unit {0})
report_event event_handle = if event_handle then fault use_after_free else done tt

-- `service_base::run`: whether the dispatcher takes the table.
unfoldable pub run : Bool → Bool → Outcome (Unit {0})
unfolding report_event
run dispatched event_handle = if not dispatched then report_event event_handle else done tt

-- The constructor of `service_helper` keeps a handle or shows an error.
abbrev pub open_manager : Option ℕ → Option ℕ × List String
open_manager none = (none, "OpenSCManager" ∷ [])
open_manager (some handle) = (some handle, [])

abbrev pub close_handle : Option ℕ → List ℕ
close_handle none = []
close_handle (some handle) = handle ∷ []

-- Its destructor gives handles of services to `CloseHandle`.
unfoldable pub close_handles : Option ℕ → Option ℕ → List ℕ
close_handles service manager = close_handle service ++ close_handle manager
