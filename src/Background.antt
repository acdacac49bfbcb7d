-- ===== src/Background.antt =====
-- src/change_lib/wall_background.hpp and wall_background.cpp, platform/win32/bg_handler.cpp and
-- platform/linux/bg_handler.cpp, and what the client of src/change_app/change_client.hpp does with
-- them. What Windows answers to a call is an argument, and the calls are a list.
pub mod Handlers
pub mod Image
pub mod Tests
use wallchanger.Base.{
  ℕ, Bool, true, false, not, ◌&&◌, ◌≤◌, List, [], ◌∷◌, ◌++◌, String, Option, none, some,
  if◌then◌else◌, leb, Outcome, done, fault, past_end,
}

-- An `int`, over the native numbers.
pub data ℤ : Type 0 where
  pos : ℕ → ℤ
  negsuc : ℕ → ℤ

-- `S_OK`, another code of success, or an error with its text.
pub data Hresult : Type 0 where
  s_ok s_false : Hresult
  error : String → Hresult

-- The calls of `IDesktopWallpaper`.
pub data Call : Type 0 where
  set_wallpaper set_color : String → Call
  set_position : ℕ → Call

pub record Win32BackgroundHandler : Type 0 where
  -- Whether `m_wallpaper` points to an object.
  pub m_wallpaper : Bool
  pub m_initialized : Bool
  pub m_valid_instance : Bool
  pub m_error : String
  pub calls : List Call

-- The text of an error.
abbrev pub failed : Hresult → Option String
failed s_ok = none
failed s_false = none
failed (error e) = some e

abbrev pub is_ok : Hresult → Bool
is_ok s_ok = true
is_ok _ = false

-- The answers of `CoInitialize` and `CoCreateInstance`. An error of the first is overwritten.
unfoldable pub created : Hresult → Hresult → Win32BackgroundHandler
created initialize create_instance = elim (failed create_instance) [
  | none ↦ record {
    m_wallpaper = true;
    m_initialized = true;
    m_valid_instance = true;
    m_error = elim (failed initialize) [ none ↦ "" | some e ↦ e ];
    calls = [];
  }
  | some e ↦ record {
    m_wallpaper = false;
    m_initialized = true;
    m_valid_instance = false;
    m_error = e;
    calls = [];
  }
]

-- The destructor: `Release` through the pointer.
unfoldable pub destroyed : Win32BackgroundHandler → Outcome (Unit {0})
destroyed h = if h.m_initialized then if h.m_wallpaper then done tt else fault past_end else done tt

abbrev pub is_active : Win32BackgroundHandler → Bool
is_active h = h.m_initialized && h.m_valid_instance

-- `DWPOS_CENTER` is 0 and `DWPOS_SPAN` is 5.
unfoldable pub position_of : ℤ → ℕ
position_of (pos n) = if leb n 5 then n else 0
position_of (negsuc n) = 0

-- The answers of `SetWallpaper` and `SetPosition`.
unfoldable pub set_wallpaper_on :
    Hresult → Hresult → String → ℤ → Win32BackgroundHandler → Bool × Win32BackgroundHandler
unfolding position_of
set_wallpaper_on first second wallpaper position h =
    if not h.m_valid_instance
    then (false, h)
    else let h₁ = record h { calls = h.calls ++ set_wallpaper wallpaper ∷ [] } in
      elim (failed first) [
        | some e ↦ (false, record h₁ { m_error = e })
        | none ↦
            let h₂ = record h₁ { calls = h₁.calls ++ set_position (position_of position) ∷ [] } in
            elim (failed second) [
              | some e ↦ (false, record h₂ { m_error = e })
              | none ↦ (is_ok second, h₂)
            ]
      ]

unfoldable pub set_background_color :
    Hresult → String → Win32BackgroundHandler → Bool × Win32BackgroundHandler
set_background_color result color h =
    if not h.m_valid_instance
    then (false, h)
    else let h₁ = record h { calls = h.calls ++ set_color color ∷ [] } in
      elim (failed result) [
        | some e ↦ (false, record h₁ { m_error = e })
        | none ↦ (is_ok result, h₁)
      ]

-- What the client does with the path and the name of a wallpaper, and the errors that it logs.
unfoldable pub show_wallpaper :
    Hresult → Hresult → String → Win32BackgroundHandler → List String × Win32BackgroundHandler
unfolding set_wallpaper_on
show_wallpaper first second wallpaper background =
    if not (is_active background)
    then (background.m_error ∷ [], background)
    else let (shown, after) = set_wallpaper_on first second wallpaper (pos 2) background in
      (if not shown then after.m_error ∷ [] else [], after)

-- The variables of the Lua state of Linux, and the files that are loaded, which are not run.
pub record LinuxBackgroundHandler : Type 0 where
  pub bg_color : Option ℕ
  pub background : Option String
  pub position : Option ℤ
  pub loaded : List String

abbrev pub linux_is_active : LinuxBackgroundHandler → Bool
linux_is_active h = true

unfoldable pub linux_set_background_color :
    ℕ → LinuxBackgroundHandler → Bool × LinuxBackgroundHandler
linux_set_background_color color h = (true, record h { bg_color = some color })

-- The script is an argument; the result of loading it is dropped.
unfoldable pub linux_set_wallpaper :
    String → String → ℤ → LinuxBackgroundHandler → Bool × LinuxBackgroundHandler
linux_set_wallpaper script wallpaper position h = (
  true,
  record h {
    background = some wallpaper;
    position = some position;
    loaded = h.loaded ++ script ∷ [];
  },
)
