-- ===== src/Background/Handlers.antt =====
-- What src/change_lib/platform/win32/bg_handler.cpp asks of Windows, and when it may.
use wallchanger.Base.{
  ◌≤◌, Bool, true, false, not, ◌&&◌, ◌≡◌, refl, List, [], ◌∷◌, ◌++◌, String, done, fault, past_end,
  if◌then◌else◌, is_some, arith,
}
use wallchanger.Background.{
  ℤ, pos, negsuc, Hresult, s_ok, s_false, error, Call, set_wallpaper, set_position, set_color,
  Win32BackgroundHandler, failed, is_ok, created, destroyed, position_of, set_wallpaper_on,
}

-- The destructor after the constructor, for all answers of Windows: it returns, unless no object
-- was made; then it releases a null pointer, as the handler counts as initialized in any case.
pub destroyed-created :
    (initialize create_instance : Hresult)
    → destroyed (created initialize create_instance)
      ≡ (if is_some (failed create_instance) then fault past_end else done tt)
unfolding destroyed created
destroyed-created initialize s_ok = refl
destroyed-created initialize s_false = refl
destroyed-created initialize (error e) = refl

-- The positions of the calls are those of Windows.
abbrev pub InRange : List Call → Type 0
InRange [] = Unit
InRange (set_position n ∷ cs) = (n ≤ 5) × InRange cs
InRange (c ∷ cs) = InRange cs

InRange-append : (cs ds : List Call) → InRange cs → InRange ds → InRange (cs ++ ds)
InRange-append [] ds p q = q
InRange-append (set_position n ∷ cs) ds (p, ps) q = (p, InRange-append cs ds ps q)
InRange-append (set_wallpaper w ∷ cs) ds p q = InRange-append cs ds p q
InRange-append (set_color c ∷ cs) ds p q = InRange-append cs ds p q

position_of-le : (p : ℤ) → position_of p ≤ 5
unfolding position_of
position_of-le (pos n) = ground arith
position_of-le (negsuc n) = omega arith

-- `set_wallpaper` with any path and position, on every branch: it is true just when there is an
-- object, the first call does not fail and the second answers `S_OK`, and every position asked of
-- Windows is one of its positions, if those asked before were.
pub set_wallpaper-InRange :
    (first second : Hresult) (wallpaper : String) (p : ℤ) (h : Win32BackgroundHandler)
    → InRange h.calls
    → ((set_wallpaper_on first second wallpaper p h).0
        ≡ (h.m_valid_instance && (not (is_some (failed first)) && is_ok second)))
      × InRange (set_wallpaper_on first second wallpaper p h).1.calls
unfolding set_wallpaper_on
set_wallpaper-InRange first second wallpaper p h fine = go h.m_valid_instance first second
  where
    once : InRange (h.calls ++ set_wallpaper wallpaper ∷ [])
    once = InRange-append h.calls (set_wallpaper wallpaper ∷ []) fine tt

    twice : InRange ((h.calls ++ set_wallpaper wallpaper ∷ []) ++ set_position (position_of p) ∷ [])
    twice =
        InRange-append (h.calls ++ set_wallpaper wallpaper ∷ []) (set_position (position_of p) ∷ [])
          once (position_of-le p, tt)

    go :
        (valid : Bool) (first second : Hresult)
        → ((set_wallpaper_on first second wallpaper p (record h { m_valid_instance = valid })).0
            ≡ (valid && (not (is_some (failed first)) && is_ok second)))
          × InRange
              (set_wallpaper_on first second wallpaper p
                (record h { m_valid_instance = valid })).1.calls
    go false first second = (refl, fine)
    go true (error e) second = (refl, once)
    go true s_ok s_ok = (refl, twice)
    go true s_ok s_false = (refl, twice)
    go true s_ok (error e) = (refl, twice)
    go true s_false s_ok = (refl, twice)
    go true s_false s_false = (refl, twice)
    go true s_false (error e) = (refl, twice)
