-- ===== src/Windows/Threads.antt =====
-- The two threads of a service of src/change_lib/platform/win32/service.cpp, in any order: the one
-- of `service_main`, and the one that calls `service_control_handler`.
use wallchanger.Base.{ℕ, Bool, true, false, ◌≡◌, List, [], ◌∷◌, ◌++◌, some, back?}
use wallchanger.Windows.Service.{
  SvcState, stopped, start_pending, stop_pending, Control, control_stop, control_other, Accepted,
  accept_none, accept_stop, accept_pause_continue_stop_shutdown, SvcStatus, ServiceBase, Action,
  service_main, service_control_handler, perform, fresh_service,
}

pub record Threads : Type 0 where
  pub service : ServiceBase
  pub main : List Action
  pub handler : List Action
  -- The controls that were sent.
  pub requests : List Control

-- The controls that a mask has; every service gets `control_other`.
abbrev pub accepts : Accepted → Control → Bool
accepts m control_other = true
accepts accept_none c = false
accepts accept_stop control_stop = true
accepts accept_stop c = false
accepts accept_pause_continue_stop_shutdown c = true

-- A service that is stopped, or starts or stops, is sent no control.
abbrev pub is_ready : SvcState → Bool
is_ready SvcState.unset = false
is_ready stopped = false
is_ready start_pending = false
is_ready stop_pending = false
is_ready _ = true

-- The service control manager sends what the status allows that was reported last.
abbrev pub Sends : List SvcStatus → Control → Type 0
Sends reported c =
    (x : SvcStatus) × (back? reported ≡ some x)
    × (is_ready x.dw_current_state ≡ true)
    × (accepts x.dw_controls_accepted c ≡ true)

pub data Step : Threads → Threads → Type 0 where
  main_goes :
      (t : Threads) (a : Action) (rest before : List Action) (s : ServiceBase)
      → t.main ≡ a ∷ rest
      → perform a t.service ≡ some (s, before)
      → Step t (record t { service = s; main = before ++ rest })
  handler_goes :
      (t : Threads) (a : Action) (rest before : List Action) (s : ServiceBase)
      → t.handler ≡ a ∷ rest
      → perform a t.service ≡ some (s, before)
      → Step t (record t { service = s; handler = before ++ rest })
  control :
      (t : Threads) (c : Control)
      → t.handler ≡ []
      → Sends t.service.reported c
      → Step t (record t { handler = service_control_handler c; requests = t.requests ++ c ∷ [] })

pub data Reaches (registered created : Bool) (last_error : ℕ) : Threads → Type 0 where
  begins : Reaches registered created last_error (record {
    service = fresh_service;
    main = service_main registered created last_error;
    handler = [];
    requests = [];
  })
  goes :
      (t t' : Threads)
      → Reaches registered created last_error t
      → Step t t'
      → Reaches registered created last_error t'
