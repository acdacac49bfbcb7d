-- ===== src/Background/Tests.antt =====
-- The theorems on src/change_lib/platform/win32/bg_handler.cpp at calls that fail and succeed.
use wallchanger.Base.{◌≡◌, true, List, [], ◌∷◌, some}
use wallchanger.Background.Image.{PropertyItem, ImageInformation, get_image_information}
use wallchanger.Background.{negsuc, s_ok, created, set_wallpaper_on}
use wallchanger.Background.Handlers.{InRange, set_wallpaper-InRange}

set_wallpaper-InRange_example :
    ((set_wallpaper_on s_ok s_ok "a.png" (negsuc 0) (created s_ok s_ok)).0 ≡ true)
    × InRange (set_wallpaper_on s_ok s_ok "a.png" (negsuc 0) (created s_ok s_ok)).1.calls
unfolding created
set_wallpaper-InRange_example =
    set_wallpaper-InRange s_ok s_ok "a.png" (negsuc 0) (created s_ok s_ok) tt

-- A maker of four bytes, and a tag that is not shown.
abbrev properties : List PropertyItem
properties =
    record { id = 0x010f; item_length = 4; item_value = 65 ∷ 66 ∷ 67 ∷ 0 ∷ [] }
    ∷ record { id = 1; item_length = 1; item_value = 9 ∷ [] }
    ∷ []

-- `GdiplusStartup` answers `OutOfMemory`.
abbrev image : ImageInformation
image = get_image_information 3 (λ n. n ∷ []) (some (640, 480))
