-- ===== src/Windows/Helper.antt =====
-- `service_helper` of src/change_lib/platform/win32/service.hpp and service.cpp. What Windows
-- answers to a call is an argument; what is printed and allocated is a list.
use wallchanger.Base.{
  ℕ, Bool, true, false, not, ◌&&◌, ◌||◌, ◌≡◌, refl, List, [], ◌∷◌, ◌++◌, String, Option, none, some,
  string_ordered, nat_ordered, ◌==◌, if◌then◌else◌, contains_first, Outcome, done, fault, past_end,
  still_running, use_after_free, ◌>>=◌, Bool-cases, inl, inr,
}

pub data Event : Type 0 where
  -- The text of the error of a call.
  failed : String → Event
  installed : Event
  deleted : String → Event
  -- What is printed of the configuration, in a buffer of that size, and of the description.
  shown : ℕ → ℕ → Event
  allocated freed : ℕ → Event

-- `m_open_service`: a null handle after an error, with which the caller goes on.
abbrev pub m_open_service : Option ℕ → Option ℕ × List Event
m_open_service none = (none, failed "OpenService" ∷ [])
m_open_service (some handle) = (some handle, [])

-- The name of the module, and whether `CreateService` gives a handle.
unfoldable pub install_service : Option String → Option ℕ → Option ℕ × List Event
install_service none created = (none, failed "GetModuleFileName" ∷ [])
install_service (some path) none = (none, failed "CreateService" ∷ [])
install_service (some path) (some handle) = (some handle, installed ∷ [])

unfoldable pub delete_service : String → Option ℕ → Bool → List Event
delete_service m_name opened succeeded =
    (m_open_service opened).1
    ++ (if not succeeded then failed "DeleteService" ∷ [] else deleted m_name ∷ [])

-- The call with no buffer: it succeeds, or says how many bytes it needs, or fails.
pub data Probe : Type 0 where
  succeeds : Probe
  insufficient_buffer : ℕ → Probe
  fails : Probe

-- The buffer after the first call; on an error the method returns.
abbrev probed :
    String
    → Probe
    → (Option ℕ → List Event → Outcome (List Event))
    → List Event
    → Outcome (List Event)
probed call succeeds next log = next none log
probed call (insufficient_buffer n) next log = next (some n) (log ++ allocated n ∷ [])
probed call fails next log = done (log ++ failed call ∷ [])

-- The end of the method reads both buffers, through null pointers if there are none, and frees them.
abbrev print_info : Option ℕ → Option ℕ → List Event → Outcome (List Event)
print_info (some n) (some m) log = done (log ++ shown n m ∷ freed n ∷ freed m ∷ [])
print_info _ _ log = fault past_end

unfoldable pub query_service_info : Option ℕ → Probe → Bool → Probe → Bool → Outcome (List Event)
query_service_info opened config config_read description description_read =
    probed "QueryServiceConfig" config
      (λ lpsc log.
        if not config_read
        then done (log ++ failed "QueryServiceConfig" ∷ [])
        else probed "QueryServiceConfig2" description
            (λ lpsd log.
              if not description_read
              then done (log ++ failed "QueryServiceConfig2" ∷ [])
              else print_info lpsc lpsd log)
            log)
      (m_open_service opened).1

-- `service_helper::service_state`, numbered from 0.
pub data ServiceState : Type 0 where
  continue_pending pause_pending paused running start_pending stop_pending stopped : ServiceState

-- The state in the answer, if the call succeeds, is read after the buffer is freed.
unfoldable pub query_service_state : Option ℕ → Option ℕ → Outcome (ServiceState × List Event)
query_service_state opened none =
    done (continue_pending, (m_open_service opened).1 ++ failed "QueryServiceStatus" ∷ [])
query_service_state opened (some dw_current_state) = fault use_after_free

-- `EnumServicesStatus` into the buffer: whether it succeeds, the error if it does not, and the
-- services that are in the buffer.
pub record Enumerated : Type 0 where
  pub succeeded : Bool
  pub last_error : ℕ
  pub names : List String

abbrev pub error_more_data : ℕ
error_more_data = 234

abbrev pub error_access_denied : ℕ
error_access_denied = 5

-- The function `enum_services`: what it returns, and the names.
unfoldable pub enum_services : Enumerated → List String → ℕ × List String
enum_services a vec =
    if a.succeeded
    then (0, vec)
    else (if a.last_error == error_more_data then error_more_data else 0, vec ++ a.names)

-- What is printed of an error is left out. The loop, over the answers that come. A constant that is not 0 is true.
unfoldable pub enumerate : List Enumerated → List String → Outcome (List String)
unfolding enum_services
enumerate [] vec = fault still_running
enumerate (a ∷ answers) vec =
    let (ret, vec') = enum_services a vec in
    let rest = enumerate answers vec' in
    let quit = ret == 0 || not (error_access_denied == 0) in if not quit then rest else done vec'

unfoldable pub is_installed : String → List Enumerated → Outcome Bool
unfolding enumerate contains_first
is_installed m_name answers =
    enumerate answers [] >>= λ vec. done (contains_first (λ x. x == m_name) vec)

-- `is_installed` returns after one enumeration, whatever it answers and whether there is more. It
-- is true if this call does not succeed and what it left in the buffer has the name; after a call
-- that succeeds it is false.
pub is_installed_lem :
    (m_name : String) (a : Enumerated) (answers : List Enumerated)
    → is_installed m_name (a ∷ answers)
      ≡ done (not a.succeeded && contains_first (λ x. x == m_name) a.names)
unfolding is_installed enumerate enum_services contains_first
is_installed_lem m_name a answers = go a.succeeded
  where
    go :
        (ok : Bool)
        → is_installed m_name (record a { succeeded = ok } ∷ answers)
          ≡ done (not ok && contains_first (λ x. x == m_name) a.names)
    go true = refl
    go false = elim (Bool-cases (a.last_error == error_more_data)) [
      | inl more ↦ rw more refl
      | inr no_more ↦ rw no_more refl
    ]
