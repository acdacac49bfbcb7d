-- ===== src/Windows/Tests.antt =====
-- The theorems on src/change_lib/platform/win32/service.cpp at runs with a request to stop.
use wallchanger.Base.{
  ℕ, zero, suc, List, Option, none, ◌++◌, map, String, string_ordered, ◌==◌, if◌then◌else◌, true,
  false, ◌≡◌, ◌⊎◌, refl, [], ◌∷◌, some,
}
use wallchanger.Windows.Wmi.{Answers, valid, Ends, lifetime, lifetime-Ends}
use wallchanger.Windows.Service.{
  start_pending, stop_pending, running, control_stop, control_other, Action, SvcStatus, ServiceBase,
  perform, report_svc_status, service_main, init_service, service_control_handler, fresh_service,
}
use wallchanger.Windows.Threads.{Threads, Sends, main_goes, Reaches, begins, goes}
use wallchanger.Windows.Reports.{Sends-stop}
use wallchanger.Windows.SystemInfo.{Property, null, cim_string, cim_uint, CpuInfoStruct}
use wallchanger.Windows.Properties.{HasProperties}

-- The next call of one of the threads, where it does not block.
abbrev main_next : Threads → Threads
main_next t = elim t.main [
  | [] ↦ t
  | a ∷ rest ↦ elim (perform a t.service) [
    | none ↦ t
    | some r ↦ record t { service = r.0; main = r.1 ++ rest }
  ]
]

abbrev handler_next : Threads → Threads
handler_next t = elim t.handler [
  | [] ↦ t
  | a ∷ rest ↦ elim (perform a t.service) [
    | none ↦ t
    | some r ↦ record t { service = r.0; handler = r.1 ++ rest }
  ]
]

-- Calls of the thread of `service_main`.
abbrev main_calls : ℕ → Threads → Threads
main_calls zero t = t
main_calls (suc n) t = main_calls n (main_next t)

abbrev handler_calls : ℕ → Threads → Threads
handler_calls zero t = t
handler_calls (suc n) t = handler_calls n (handler_next t)

main_next-Reaches : (t : Threads) → Reaches true true 0 t → Reaches true true 0 (main_next t)
main_next-Reaches t r = go t.main refl
  where
    go :
        (l : List Action)
        → t.main ≡ l
        → Reaches true true 0 (elim l [
          | [] ↦ t
          | a ∷ rest ↦ elim (perform a t.service) [
            | none ↦ t
            | some q ↦ record t { service = q.0; main = q.1 ++ rest }
          ]
        ])
    go [] e = r
    go (a ∷ rest) e = on (perform a t.service) refl
      where
        on :
            (o : Option (ServiceBase × List Action))
            → perform a t.service ≡ o
            → Reaches true true 0
                (elim o [ none ↦ t | some q ↦ record t { service = q.0; main = q.1 ++ rest } ])
        on none f = r
        on (some (s, before)) f = goes t _ r (main_goes t a rest before s e f)

main_calls-Reaches :
    (n : ℕ) (t : Threads) → Reaches true true 0 t → Reaches true true 0 (main_calls n t)
main_calls-Reaches zero t r = r
main_calls-Reaches (suc n) t r = main_calls-Reaches n (main_next t) (main_next-Reaches t r)

abbrev at_start : Threads
at_start = record {
  service = fresh_service;
  main = service_main true true 0;
  handler = [];
  requests = [];
}

-- After the report that the service runs.
abbrev up : Threads
up = main_calls 18 at_start

may_stop : Sends up.service.reported control_stop
unfolding perform report_svc_status service_main init_service
may_stop = (_, refl, refl, refl)

Sends-stop_example : (control_stop ≡ control_stop) ⊎ (control_stop ≡ control_other)
Sends-stop_example =
    Sends-stop true true 0 up control_stop (main_calls-Reaches 18 at_start begins) may_stop

abbrev requested : Threads
requested = record up {
  handler = service_control_handler control_stop;
  requests = control_stop ∷ [];
}

abbrev handled : Threads
handled = handler_calls 21 requested

-- The second report of the handler writes the state between the writes and the call of
-- `SetServiceStatus` of the other thread: the service ends, and was never reported as stopped.
abbrev overwritten : Threads
overwritten = main_calls 1 (handler_calls 2 (main_calls 8 (handler_calls 12 requested)))

overwritten_test :
    (overwritten.main ≡ [])
    × (map (λ (x : SvcStatus). x.dw_current_state) overwritten.service.reported
        ≡ start_pending ∷ running ∷ stop_pending ∷ stop_pending ∷ [])
unfolding perform report_svc_status service_main init_service service_control_handler
overwritten_test = (refl, refl)

-- The buffer is large enough, and the service is there.
abbrev property : String → Property
property key =
    if key == "Name"
    then cim_string "CPU 1"
    else if key == "Manufacturer"
    then cim_string "Maker"
    else if key == "SocketDesignation"
    then cim_string "AM4"
    else if key == "NumberOfCores"
    then cim_uint 4
    else if key == "ThreadCount"
    then cim_uint 8
    else if key == "CurrentClockSpeed"
    then cim_uint 3600
    else if key == "AddressWidth"
    then cim_uint 64
    else cim_uint 9

abbrev without_socket : String → Property
without_socket key = if key == "SocketDesignation" then null else property key

abbrev nothing_known : CpuInfoStruct
nothing_known = record {
  name = "";
  manufacturer = "";
  socket = "";
  core_count = 0;
  thread_count = 0;
  architecture = 0;
  addresswidth = 0;
  clock_speed = 0;
}

abbrev has_properties : HasProperties property
has_properties = record {
  name = "CPU 1";
  manufacturer = "Maker";
  cores = 4;
  threads = 8;
  clock = 3600;
  width = 64;
  architecture = 9;
  at_name = refl;
  at_manufacturer = refl;
  at_cores = refl;
  at_threads = refl;
  at_clock = refl;
  at_width = refl;
  at_architecture = refl;
}

abbrev has_others : HasProperties without_socket
has_others = record {
  name = "CPU 1";
  manufacturer = "Maker";
  cores = 4;
  threads = 8;
  clock = 3600;
  width = 64;
  architecture = 9;
  at_name = refl;
  at_manufacturer = refl;
  at_cores = refl;
  at_threads = refl;
  at_clock = refl;
  at_width = refl;
  at_architecture = refl;
}

-- Everything succeeds but the security, and no blanket is set for a null pointer.
abbrev refused_security : Answers
refused_security = record {
  initialized = true;
  secured = false;
  created = true;
  connected = true;
  blanketed = λ p. elim p [ valid ↦ true | _ ↦ false ];
}

lifetime-Ends_example : Ends true false (lifetime refused_security)
lifetime-Ends_example = lifetime-Ends refused_security refl
