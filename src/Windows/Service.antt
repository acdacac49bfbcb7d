-- ===== src/Windows/Service.antt =====
-- `service_base` of src/change_lib/platform/win32/service.hpp and service.cpp. What the service
-- control manager is told is a list. A thread of the service is the list of the calls, and of the
-- accesses to the status, that it has still to do.
use wallchanger.Base.{
  ℕ, ◌+◌, ◌%◌, ◌^◌, Bool, true, false, List, [], ◌∷◌, ◌++◌, Option, none, some, if◌then◌else◌,
}

-- `SERVICE_STOPPED` and so on; `unset` is the zero of a status that is not filled in.
pub data SvcState : Type 0 where
  unset stopped start_pending stop_pending running continue_pending pause_pending paused : SvcState

pub data Control : Type 0 where
  control_stop control_shutdown control_continue control_pause control_other : Control

-- The masks of controls that the source uses.
pub data Accepted : Type 0 where
  accept_none accept_stop accept_pause_continue_stop_shutdown : Accepted

pub record SvcStatus : Type 0 where
  pub dw_current_state : SvcState
  pub dw_win32_exit_code : ℕ
  pub dw_wait_hint : ℕ
  pub dw_controls_accepted : Accepted
  pub dw_check_point : ℕ

pub record ServiceBase : Type 0 where
  pub svc_status : SvcStatus
  -- The static variable of `report_svc_status`.
  pub dw_check_point : ℕ
  -- `none` is the null handle; else whether the event is set.
  pub svc_stop_event : Option Bool
  -- The statuses given to `SetServiceStatus`.
  pub reported : List SvcStatus

abbrev pub is_start_pending : SvcState → Bool
is_start_pending start_pending = true
is_start_pending _ = false

-- `(CurrentState == SERVICE_RUNNING) || (CurrentState == SERVICE_STOPPED)`
abbrev pub is_settled : SvcState → Bool
is_settled running = true
is_settled stopped = true
is_settled _ = false

-- One call of a thread, or one access to `SvcStatus` or `dwCheckPoint`, which the threads share
-- without a lock. `start` and `stop` are those of the derived class.
pub data Action : Type 0 where
  -- The members that are set before the first report.
  set_members : Action
  reports : SvcState → ℕ → ℕ → Action
  -- `report_svc_status(SvcStatus.dwCurrentState, ...)`, whose argument is read first.
  reports_current : Action
  writes_state : SvcState → Action
  writes_exit_code : ℕ → Action
  writes_wait_hint : ℕ → Action
  writes_accepted : Accepted → Action
  writes_check_point : ℕ → Action
  -- `dwCheckPoint++` reads the number, and then writes the next one.
  reads_number : Action
  writes_number : ℕ → Action
  -- `SetServiceStatus` reads the structure.
  set_service_status : Action
  create_event start stop set_event wait_for_event report_event : Action

-- The accesses of one report.
unfoldable pub report_svc_status : SvcState → ℕ → ℕ → List Action
report_svc_status current_state win32_exit_code wait_hint =
    writes_state current_state
    ∷ writes_exit_code win32_exit_code
    ∷ writes_wait_hint wait_hint
    ∷ writes_accepted (if is_start_pending current_state then accept_none else accept_stop)
    ∷ (if is_settled current_state then writes_check_point 0 else reads_number)
    ∷ set_service_status
    ∷ []

-- `init_service`, after `CreateEvent` with or without success.
unfoldable pub init_service : Bool → ℕ → List Action
init_service false last_error = reports stopped last_error 0 ∷ []
init_service true last_error =
    create_event ∷ reports running 0 0 ∷ start ∷ wait_for_event ∷ reports stopped 0 0 ∷ []

-- Whether `RegisterServiceCtrlHandler` and `CreateEvent` succeed.
unfoldable pub service_main : Bool → Bool → ℕ → List Action
unfolding init_service
service_main false created last_error = report_event ∷ []
service_main true created last_error =
    set_members ∷ reports start_pending 0 3000 ∷ init_service created last_error

unfoldable pub service_control_handler : Control → List Action
service_control_handler control_stop =
    reports stop_pending 0 0 ∷ stop ∷ set_event ∷ reports_current ∷ []
service_control_handler control_shutdown =
    reports stop_pending 0 0 ∷ stop ∷ set_event ∷ reports_current ∷ []
service_control_handler control_continue =
    reports continue_pending 0 0 ∷ start ∷ reports running 0 0 ∷ []
service_control_handler control_pause = reports pause_pending 0 0 ∷ stop ∷ reports paused 0 0 ∷ []
service_control_handler control_other = []

-- What a call does, with the calls that it leaves to do; `none` where it blocks.
unfoldable pub perform : Action → ServiceBase → Option (ServiceBase × List Action)
unfolding report_svc_status
perform set_members s = some (
  record s {
    svc_status = record s.svc_status { dw_controls_accepted = accept_pause_continue_stop_shutdown };
  },
  [],
)
perform (reports current exit hint) s = some (s, report_svc_status current exit hint)
perform reports_current s = some (s, reports s.svc_status.dw_current_state 0 0 ∷ [])
perform (writes_state current) s =
    some (record s { svc_status = record s.svc_status { dw_current_state = current } }, [])
perform (writes_exit_code exit) s =
    some (record s { svc_status = record s.svc_status { dw_win32_exit_code = exit } }, [])
perform (writes_wait_hint hint) s =
    some (record s { svc_status = record s.svc_status { dw_wait_hint = hint } }, [])
perform (writes_accepted mask) s =
    some (record s { svc_status = record s.svc_status { dw_controls_accepted = mask } }, [])
perform (writes_check_point n) s =
    some (record s { svc_status = record s.svc_status { dw_check_point = n } }, [])
perform reads_number s =
    some (
      s,
      writes_number ((s.dw_check_point + 1) % 2 ^ 32) ∷ writes_check_point s.dw_check_point ∷ [],
    )
perform (writes_number n) s = some (record s { dw_check_point = n }, [])
perform set_service_status s = some (record s { reported = s.reported ++ s.svc_status ∷ [] }, [])
perform create_event s = some (record s { svc_stop_event = some false }, [])
perform set_event s = elim s.svc_stop_event [
  | none ↦ some (s, [])
  | some b ↦ some (record s { svc_stop_event = some true }, [])
]
perform wait_for_event s = elim s.svc_stop_event [
  | none ↦ some (s, [])
  | some b ↦ if b then some (s, []) else none
]
perform _ s = some (s, [])

abbrev pub fresh_service : ServiceBase
fresh_service = record {
  svc_status = record {
    dw_current_state = unset;
    dw_win32_exit_code = 0;
    dw_wait_hint = 0;
    dw_controls_accepted = accept_none;
    dw_check_point = 0;
  };
  dw_check_point = 1;
  svc_stop_event = none;
  reported = [];
}
