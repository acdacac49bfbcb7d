-- ===== src/Platform/Tests.antt =====
-- The theorems on src/change_lib/platform at concrete values.
use wallchanger.Base.{ℕ, ◌<◌, ◌%◌, ◌≡◌, ◌↔◌, refl, arith, true, List, [], ◌∷◌, ◌++◌, done, length}
use wallchanger.PathTable.{bytes_of}
use wallchanger.Platform.Words.{pos, negsuc}
use wallchanger.Platform.Errors.{
  Conversion, win32_error_cat, make_error_code, win32_message, win32_message-make_error_code,
}
use wallchanger.Platform.Files.{linux_open_file, linux_open_file_lem}

-- Texts of characters below 128: the same in both forms, as far as the buffer goes.
abbrev plain : Conversion
plain = record {
  wide_char_to_multi_byte = λ strict msg size. (length msg, msg);
  multi_byte_to_wide_char = λ strict msg size. (length msg, msg);
}

abbrev text_of : ℕ → ℕ → List ℕ
text_of id size = bytes_of "Denied."

win32_message-make_error_code_example :
    win32_message plain true text_of (make_error_code win32_error_cat 5).error_value
    ≡ done (bytes_of "Denied." ++ 0 ∷ [])
win32_message-make_error_code_example =
    win32_message-make_error_code plain text_of 5 (bytes_of "Denied.") (omega arith) (omega arith)
      (omega arith) (record { asked = refl; put = refl })

linux_open_file_lem_example :
    ((linux_open_file (pos 200) ≡ 200) ↔ (200 < 128))
    × ((linux_open_file (pos 200) ≡ linux_open_file (pos 456)) ↔ (200 % 256 ≡ 456 % 256))
    × ((linux_open_file (pos 200) ≡ linux_open_file (negsuc 0)) ↔ (200 % 256 ≡ 255))
linux_open_file_lem_example = linux_open_file_lem 200 456 (omega arith)
