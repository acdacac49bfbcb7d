-- ===== src/Service/Marks.antt =====
-- `mark_favorate` of src/change_service/change_state.cpp, whose mark goes to a copy of the collection.
use wallchanger.Base.{
  string_ordered, ◌≡◌, refl, done, >>=-Satisfies, Satisfies-done, or_fault, bad_access, past_end,
  find_first, back?,
}
use wallchanger.Service.Library.{Library}
use wallchanger.Cache.{has_value}
use wallchanger.Service.State.{State, mark_favorate}

module _ {L : Type 0} (lib : Library L) where
  -- Where `mark_favorate` returns, nothing is changed.
  pub mark_favorate_lem : (s s' : State L) → mark_favorate lib s ≡ done s' → s' ≡ s
  unfolding mark_favorate
  mark_favorate_lem s s' h =
      Satisfies-done (λ r. r ≡ s) _ s'
        (>>=-Satisfies (λ r. r ≡ s) (or_fault past_end (back? s.m_previous)) _
          (λ cur.
            >>=-Satisfies (λ r. r ≡ s) (or_fault bad_access (lib.get_current s.m_cache)) _
              (λ c.
                >>=-Satisfies (λ r. r ≡ s)
                  (or_fault past_end (find_first (has_value cur.wallpaper) c.m_list)) _
                  (λ x. refl))))
        h
