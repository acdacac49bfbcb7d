-- ===== src/Windows/Wmi.antt =====
-- The constructor and the destructor of `wmi2` of src/change_lib/platform/win32/helper.cpp. Whether
-- each call of COM succeeds is an argument.
use wallchanger.Base.{
  ℕ, ◌+◌, Bool, true, false, ◌&&◌, ◌≡◌, refl, if◌then◌else◌, Outcome, done, fault, null_pointer,
  use_after_free, ◌>>=◌,
}

-- A pointer to an object of COM.
pub data Pointer : Type 0 where
  null_pointer_to valid released : Pointer

-- `Release` of an object with one reference.
unfoldable pub release : Pointer → Outcome Pointer
release null_pointer_to = fault null_pointer
release valid = done released
release released = fault use_after_free

-- The calls of the constructor.
pub record Answers : Type 0 where
  pub initialized : Bool
  pub secured : Bool
  pub created : Bool
  pub connected : Bool
  -- `CoSetProxyBlanket`, of the pointer that it gets.
  pub blanketed : Pointer → Bool

pub record Wmi : Type 0 where
  pub m_locator : Pointer
  pub m_service : Pointer
  -- The calls of `CoInitializeEx` that succeed, and of `CoUninitialize`.
  pub initialized : ℕ
  pub uninitialized : ℕ

abbrev pub uninitialize : Wmi → Wmi
uninitialize w = record w { uninitialized = w.uninitialized + 1 }

-- `CoInitializeEx` and `CoInitializeSecurity`.
unfoldable pub secure : Answers → Wmi
secure a =
    let w : Wmi = record {
      m_locator = null_pointer_to;
      m_service = null_pointer_to;
      initialized = if a.initialized then 1 else 0;
      uninitialized = 0;
    } in
    if a.secured then w else uninitialize w

-- `CoCreateInstance`.
unfoldable pub create : Answers → Wmi → Wmi
create a w = if a.created then record w { m_locator = valid } else uninitialize w

-- `ConnectServer`, a method of the locator.
unfoldable pub connect : Answers → Wmi → Outcome Wmi
unfolding release
connect a w = elim w.m_locator [
  | valid ↦
      if a.connected
      then done (record w { m_service = valid })
      else done (uninitialize (record w { m_locator = released }))
  | null_pointer_to ↦ fault null_pointer
  | released ↦ fault use_after_free
]

unfoldable pub release_both : Wmi → Outcome Wmi
unfolding release
release_both w = release w.m_service >>= λ s.
    release w.m_locator >>= λ l. done (uninitialize (record w { m_service = s; m_locator = l }))

-- `CoSetProxyBlanket`.
unfoldable pub set_blanket : Answers → Wmi → Outcome Wmi
unfolding release_both
set_blanket a w = if a.blanketed w.m_service then done w else release_both w

unfoldable pub constructed : Answers → Outcome Wmi
unfolding secure create connect set_blanket
constructed a = connect a (create a (secure a)) >>= set_blanket a

-- The destructor.
abbrev pub destroyed : Wmi → Outcome Wmi
destroyed w = release_both w

abbrev pub lifetime : Answers → Outcome Wmi
lifetime a = constructed a >>= destroyed

abbrev pub Ends : Bool → Bool → Outcome Wmi → Type 0
Ends ok secured (done w) =
    (ok ≡ true)
    × (w.m_locator ≡ released)
    × (w.m_service ≡ released)
    × (w.uninitialized ≡ (if secured then 1 else 2))
Ends ok secured (fault e) = ok ≡ false

-- By the answers, the last one as `b`.
lifetime_cases :
    (i s c k b : Bool) (f : Pointer → Bool)
    → f valid ≡ b
    → f null_pointer_to ≡ false
    → Ends (c && (k && b)) s (
        lifetime
          (record { initialized = i; secured = s; created = c; connected = k; blanketed = f }))
unfolding constructed secure create connect set_blanket release_both release
lifetime_cases i true true true true f e h = rw e (refl, refl, refl, refl)
lifetime_cases i false true true true f e h = rw e (refl, refl, refl, refl)
lifetime_cases i true true true false f e h = rw e refl
lifetime_cases i false true true false f e h = rw e refl
lifetime_cases i true true false b f e h = rw h refl
lifetime_cases i false true false b f e h = rw h refl
lifetime_cases i true false k b f e h = refl
lifetime_cases i false false k b f e h = refl

-- For all answers of COM, if it refuses a blanket for a null pointer: an object of `wmi2` is made
-- and destroyed without following a null or a released pointer just when the locator was created,
-- the server connected and the blanket set. Then both interfaces are released, each once, and COM
-- is uninitialized once, or twice where the security was refused.
pub lifetime-Ends :
    (a : Answers)
    → a.blanketed null_pointer_to ≡ false
    → Ends (a.created && (a.connected && a.blanketed valid)) a.secured (lifetime a)
lifetime-Ends a h =
    lifetime_cases a.initialized a.secured a.created a.connected (a.blanketed valid) a.blanketed
      refl h
