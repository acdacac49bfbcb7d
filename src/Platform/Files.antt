-- ===== src/Platform/Files.antt =====
-- Files of src/change_lib/platform/linux/linux_file_utils.cpp and
-- src/change_lib/platform/win32/win32_file_utils.cpp. What the systems answer is an argument.
use wallchanger.Base.{
  ℕ, ◌+◌, ◌-◌, ◌*◌, ◌%◌, ◌^◌, ◌<◌, ◌≡◌, ◌↔◌, refl, arith, if◌then◌else◌, ltb, List, Option, none,
  some, length, ◌||◌, ◌==◌, nat_ordered, ap, ◌∙◌, sym,
}
use wallchanger.PathTable.{bytes_of}
use wallchanger.Folders.Text.{eq_bytes}
use wallchanger.Platform.Words.{ℤ, pos, negsuc, i8, u16, u32, u64, modulo, signed}
use wallchanger.Platform.Errors.{
  ErrorCode, win32_error_cat, make_error_code, make_win32_error_code, make_hresult_error_code,
  Conversion, to_wtf8,
}

-- The number in the `FileHandle` for what `open` returns. No error is ever reported.
unfoldable pub linux_open_file : ℤ → ℕ
unfolding modulo signed
linux_open_file opened = u64 (i8 opened)

-- The low byte, with the bits above it filled by its highest one.
extended : ℕ → ℕ
extended n = if ltb n 128 then n else 2 ^ 64 - 256 + n

handle_lem : (fd : ℕ) → linux_open_file (pos fd) ≡ extended (fd % 256)
unfolding linux_open_file modulo signed extended
handle_lem fd = ground arith

failed : linux_open_file (negsuc 0) ≡ extended 255
unfolding linux_open_file modulo signed extended
failed = refl

extended-injective : (a b : ℕ) → a < 256 → b < 256 → extended a ≡ extended b → a ≡ b
unfolding extended
extended-injective a b ha hb e = ground arith

extended-fixes : (a fd : ℕ) → a < 256 → fd < 2 ^ 31 → extended a ≡ fd → (fd < 128) × (a ≡ fd)
unfolding extended
extended-fixes a fd ha h e = ground arith

extended_small : (fd : ℕ) → fd < 128 → extended (fd % 256) ≡ fd
unfolding extended
extended_small fd h = ground arith

-- The handle of a descriptor is its number just below 128; two descriptors have the same handle
-- just when they agree modulo 256; and a descriptor has the handle of a call that failed, with -1,
-- just when it is 255 modulo 256.
pub linux_open_file_lem :
    (fd other : ℕ)
    → fd < 2 ^ 31
    → ((linux_open_file (pos fd) ≡ fd) ↔ (fd < 128))
      × ((linux_open_file (pos fd) ≡ linux_open_file (pos other)) ↔ (fd % 256 ≡ other % 256))
      × ((linux_open_file (pos fd) ≡ linux_open_file (negsuc 0)) ↔ (fd % 256 ≡ 255))
linux_open_file_lem fd other h = (
  rw (handle_lem fd)
      ((λ e. (extended-fixes (fd % 256) fd (omega arith) h e).0), λ k. extended_small fd k),
  rw (handle_lem fd, handle_lem other)
      (
        (λ e. extended-injective (fd % 256) (other % 256) (omega arith) (omega arith) e),
        λ e. ap extended e,
      ),
  rw (handle_lem fd) (
    (λ e. extended-injective (fd % 256) 255 (omega arith) (omega arith) (e ∙ failed)),
    λ e. ap extended e ∙ sym failed,
  ),
)

-- `UNICODE_STRING`, with the buffer as its characters.
pub record UnicodeString : Type 0 where
  pub length_bytes : ℕ
  pub maximum_length : ℕ
  pub buffer : List ℕ

-- `sizeof(PWSTR)` is 8.
unfoldable pub unicode_string : List ℕ → UnicodeString
unicode_string name = record {
  length_bytes = u16 (length name * 2);
  maximum_length = u16 (8 + 1);
  buffer = name;
}

pub data Opened : Type 0 where
  handle : ℕ → Opened
  unexpected : ErrorCode → Opened

-- `ERROR_INVALID_NAME`
abbrev pub error_invalid_name : ℕ
error_invalid_name = 123

-- The error of `GetProcAddress`, if it fails, or the function `NtCreateFile`, with the status and
-- the handle that it gives.
unfoldable pub win32_open_file : Conversion → ℕ → Option (UnicodeString → ℤ × ℕ) → List ℕ → Opened
unfolding unicode_string to_wtf8 eq_bytes
win32_open_file api last_error none filename = unexpected (make_win32_error_code last_error)
win32_open_file api last_error (some create_file) filename =
    if eq_bytes filename (bytes_of ".") || eq_bytes filename (bytes_of "..")
    then unexpected (make_error_code win32_error_cat error_invalid_name)
    else let (res, ret) = create_file (unicode_string (to_wtf8 api (some filename))) in
      if u32 res == 0 then handle ret else unexpected (make_hresult_error_code res)

-- A name of fewer than 2^15 characters is given with its length in bytes, but as longer than its
-- own buffer from five characters on.
pub unicode_string_lem :
    (name : List ℕ)
    → length name < 2 ^ 15
    → ((unicode_string name).length_bytes ≡ 2 * length name)
      × (((unicode_string name).maximum_length < (unicode_string name).length_bytes)
          ↔ (4 < length name))
unfolding unicode_string
unicode_string_lem name h = (omega arith, ((λ k. omega arith), λ k. omega arith))
