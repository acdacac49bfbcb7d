-- ===== src/Windows/Finishing.antt =====
-- What follows a request to stop a service of src/change_lib/platform/win32/service.cpp, in every
-- order of its threads' calls and accesses to the status.
use wallchanger.Base.{ℕ, ◌+◌, ◌<◌, Bool, true, false, ◌||◌, ◌≡◌, ◌⊎◌, List, [], ◌∷◌, ◌++◌, some}
use wallchanger.Windows.Service.{
  start_pending, Control, control_stop, control_shutdown, SvcStatus, ServiceBase, Action,
  set_members, reports, reports_current, writes_state, writes_exit_code, writes_wait_hint,
  writes_accepted, writes_check_point, reads_number, writes_number, set_service_status,
  create_event, set_event, perform,
}
use wallchanger.Windows.Threads.{Threads, is_ready}

abbrev pub stop_requested : List Control → Bool
stop_requested [] = false
stop_requested (control_stop ∷ cs) = true
stop_requested (control_shutdown ∷ cs) = true
stop_requested (c ∷ cs) = stop_requested cs

abbrev is_set : Action → Bool
is_set set_event = true
is_set _ = false

abbrev has_set : List Action → Bool
has_set [] = false
has_set (a ∷ l) = is_set a || has_set l

-- The event is not made another time.
abbrev IsFixed : Action → Type 0
IsFixed create_event = ⊥
IsFixed _ = Unit

abbrev Fixed : List Action → Type 0
Fixed [] = Unit
Fixed (a ∷ l) = IsFixed a × Fixed l

-- The event after a call: it stays set, and `SetEvent` sets it.
abbrev EventAfter : Bool → Action → ServiceBase → Type 0
EventAfter b a s =
    (b' : Bool) × (s.svc_stop_event ≡ some b')
    × (b ≡ true → b' ≡ true)
    × (is_set a ≡ true → b' ≡ true)

-- The thread of `service_main` before it makes the event: it reports only that the service starts.
abbrev ToCreate : List Action → Type 0
ToCreate [] = ⊥
ToCreate (set_members ∷ l) = ToCreate l
ToCreate (reports current exit hint ∷ l) = (current ≡ start_pending) × ToCreate l
ToCreate (writes_state current ∷ l) = (current ≡ start_pending) × ToCreate l
ToCreate (writes_exit_code exit ∷ l) = ToCreate l
ToCreate (writes_wait_hint hint ∷ l) = ToCreate l
ToCreate (writes_accepted m ∷ l) = ToCreate l
ToCreate (writes_check_point n ∷ l) = ToCreate l
ToCreate (reads_number ∷ l) = ToCreate l
ToCreate (writes_number n ∷ l) = ToCreate l
ToCreate (set_service_status ∷ l) = ToCreate l
ToCreate (create_event ∷ l) = Fixed l
ToCreate (a ∷ l) = ⊥

abbrev NotReady : List SvcStatus → Type 0
NotReady [] = Unit
NotReady (x ∷ xs) = (is_ready x.dw_current_state ≡ false) × NotReady xs

abbrev Starting : ServiceBase → List Action → Type 0
Starting s main =
    ToCreate main × (is_ready s.svc_status.dw_current_state ≡ false) × NotReady s.reported

-- The event is there, and after a request to stop it is set, or the handler is about to set it.
abbrev Waiting : ServiceBase → List Action → List Action → List Control → Type 0
Waiting s main handler requests =
    Fixed main
    × Fixed handler
    × (b : Bool) × (s.svc_stop_event ≡ some b)
    × (stop_requested requests ≡ true → (b ≡ true) ⊎ (has_set handler ≡ true))

abbrev Going : ServiceBase → List Action → List Action → List Control → Type 0
Going s main handler requests =
    (Starting s main × (handler ≡ []) × (requests ≡ [])) ⊎ Waiting s main handler requests

-- How many accesses and calls a call is at most.
abbrev weight : Action → ℕ
weight (reports current exit hint) = 9
weight reports_current = 10
weight reads_number = 3
weight _ = 1

abbrev pub size : List Action → ℕ
size [] = 0
size (a ∷ l) = weight a + size l

-- A call returns, and leaves less to do.
abbrev pub Advances : ServiceBase → Action → Type 0
Advances s a =
    (s' : ServiceBase) × (before : List Action) × (perform a s ≡ some (s', before))
    × (size before < weight a)

-- The thread of `service_main` has ended, or its next call returns and leaves less to do.
abbrev pub Finishes : ServiceBase → List Action → Type 0
Finishes s [] = Unit
Finishes s (a ∷ rest) =
    (s' : ServiceBase) × (before : List Action) × (perform a s ≡ some (s', before))
    × (size (before ++ rest) < size (a ∷ rest))
