-- ===== src/Platform/Errors.antt =====
-- The error codes of src/change_lib/platform/win32/common.hpp and common.cpp, and of
-- src/change_lib/platform/linux/common.hpp and common.cpp. What the systems answer is an argument.
use wallchanger.Base.{
  drop-replicate, ℕ, ◌+◌, ◌*◌, ◌^◌, ◌<◌, ◌≡◌, arith, if◌then◌else◌, Bool, true, false, ltb, List,
  [], ◌∷◌, ◌++◌, Option, none, some, length, replicate, not, ◌/◌, ◌<◌, ◌==◌, nat_ordered, ap,
  Outcome, done, fault, overrun, invalid_handle, drop,
}
use mathlib.Core.List.{append-nil}
use wallchanger.PathTable.{bytes_of}
use wallchanger.Platform.Words.{ℤ, pos, i32, u32, u32-i32}

pub data Category : Type 0 where
  win32_error_cat linux_error_cat : Category

-- `std::error_code`.
pub record ErrorCode : Type 0 where
  pub error_value : ℤ
  pub category : Category

-- `make_error_code` of an error number, which an `int` keeps.
unfoldable pub make_error_code : Category → ℕ → ErrorCode
make_error_code c error = record { error_value = i32 (pos error); category = c }

-- The value of `GetLastError()`.
abbrev pub make_win32_error_code : ℕ → ErrorCode
make_win32_error_code last_error = make_error_code win32_error_cat last_error

abbrev pub make_hresult_error_code : ℤ → ErrorCode
make_hresult_error_code e = make_error_code win32_error_cat (u32 e)

-- The value of `errno`.
abbrev pub make_linux_error_code : ℤ → ErrorCode
make_linux_error_code errno = make_error_code linux_error_cat (u32 errno)

-- `WideCharToMultiByte` and `MultiByteToWideChar`: whether characters that are not valid are an
-- error, the text, and the size of the buffer; the number that is returned, and what is written.
pub record Conversion : Type 0 where
  pub wide_char_to_multi_byte : Bool → List ℕ → ℕ → ℕ × List ℕ
  pub multi_byte_to_wide_char : Bool → List ℕ → ℕ → ℕ × List ℕ

-- A buffer after its beginning was written.
abbrev pub written : List ℕ → List ℕ → List ℕ
written bytes buffer = bytes ++ drop (length bytes) buffer

abbrev pub not_available : List ℕ
not_available = bytes_of "N/A"

-- A text converted in two calls: the first one asks for the length.
abbrev pub convert : (Bool → List ℕ → ℕ → ℕ × List ℕ) → Option (List ℕ) → List ℕ
convert call none = not_available
convert call (some msg) =
    let required_len = (call true msg 0).0 in
    written (call false msg required_len).1 (replicate required_len 0)

-- The pointer is to the first `len` characters, or null.
unfoldable pub to_utf8 : Conversion → Option (List ℕ) → List ℕ
to_utf8 api msg = convert api.wide_char_to_multi_byte msg

unfoldable pub to_wtf8 : Conversion → Option (List ℕ) → List ℕ
to_wtf8 api msg = convert api.multi_byte_to_wide_char msg

-- What the first call of a conversion says and the second one writes, for a valid text.
pub record Converts (call : Bool → List ℕ → ℕ → ℕ × List ℕ) (msg bytes : List ℕ) : Type 0 where
  pub asked : (call true msg 0).0 ≡ length bytes
  pub put : call false msg (length bytes) ≡ (length bytes, bytes)

-- A valid text is converted whole, whatever it is.
convert_lem :
    (call : Bool → List ℕ → ℕ → ℕ × List ℕ) (msg bytes : List ℕ)
    → Converts call msg bytes
    → convert call (some msg) ≡ bytes
convert_lem call msg bytes c =
    rw (c.asked, c.put, drop-replicate {A = ℕ} (length bytes) 0) (append-nil bytes)

-- The bytes that `HeapAlloc` is asked for, in characters of two bytes half as many.
abbrev pub alloc_size : ℕ
alloc_size = 1024 * 64

-- `FormatMessage` with an error number and the size that it is told gives the characters that it
-- writes, without the one that ends them.
unfoldable pub win32_message : Conversion → Bool → (ℕ → ℕ → List ℕ) → ℤ → Outcome (List ℕ)
unfolding to_utf8
win32_message api allocated format_message c =
    if not allocated
    then done not_available
    else let error = format_message (u32 c) alloc_size in
      if ltb (alloc_size / 2) (length error + 1)
      then fault overrun
      else if length error == 0
      then done not_available
      else done (to_utf8 api (some (error ++ 0 ∷ [])))

pub data Locale : Type 0 where
  lc_global_locale null_locale : Locale
  locale : ℕ → Locale

abbrev pub strerror : (ℤ → Locale → Option (List ℕ)) → ℤ → Locale → Option (List ℕ)
strerror strerror_l c null_locale = none
strerror strerror_l c l = strerror_l c l

abbrev pub or_unknown : Option (List ℕ) → List ℕ
or_unknown none = bytes_of "Unknown Error"
or_unknown (some err) = err

-- What `uselocale`, `duplocale` and `strerror_l` give. The copy is freed, also one that was not
-- made.
unfoldable pub linux_message :
    Locale → Locale → (ℤ → Locale → Option (List ℕ)) → ℤ → Outcome (List ℕ)
linux_message lc_global_locale null_locale strerror_l c = fault invalid_handle
linux_message lc_global_locale copy strerror_l c = done (or_unknown (strerror strerror_l c copy))
linux_message loc copy strerror_l c = done (or_unknown (strerror strerror_l c loc))

-- The message of an error code of Windows, made of any error number, is the text that Windows has
-- for this number, and ends in a null character, which is one character too many: the memory is
-- there, the text is not empty, fits into it, and is valid.
pub win32_message-make_error_code :
    (api : Conversion) (format_message : ℕ → ℕ → List ℕ) (n : ℕ) (bytes : List ℕ)
    → n < 2 ^ 32
    → 0 < length (format_message n alloc_size)
    → length (format_message n alloc_size) < alloc_size / 2
    → Converts api.wide_char_to_multi_byte (format_message n alloc_size ++ 0 ∷ []) (bytes ++ 0 ∷ [])
    → win32_message api true format_message (make_error_code win32_error_cat n).error_value
      ≡ done (bytes ++ 0 ∷ [])
unfolding win32_message make_error_code to_utf8
win32_message-make_error_code api format_message n bytes h some_text fits c =
    let text = format_message n alloc_size in
    let fits_not : ltb (alloc_size / 2) (length text + 1) ≡ false = ground arith in
    let not_empty : (length text == 0) ≡ false = ground arith in
    rw (u32-i32 n h, fits_not, not_empty)
      (ap done (convert_lem api.wide_char_to_multi_byte (text ++ 0 ∷ []) (bytes ++ 0 ∷ []) c))
