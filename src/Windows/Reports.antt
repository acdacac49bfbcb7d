-- ===== src/Windows/Reports.antt =====
-- What a service of src/change_lib/platform/win32/service.cpp reports, in every order of its
-- threads' calls and accesses to the status.
use wallchanger.Base.{
  ℕ, Bool, true, false, ◌≡◌, ◌≢◌, ◌⊎◌, inl, inr, refl, subst, sym, List, [], ◌∷◌, ◌++◌, Option,
  none, some, back?, if◌then◌else◌,
}
use mathlib.Core.Option.{some-injective}
use wallchanger.Windows.Service.{
  SvcState, Control, control_stop, control_shutdown, control_continue, control_pause, control_other,
  Accepted, accept_none, accept_stop, accept_pause_continue_stop_shutdown, SvcStatus, ServiceBase,
  Action, set_members, reports, reports_current, writes_state, writes_exit_code, writes_wait_hint,
  writes_accepted, writes_check_point, reads_number, set_service_status, set_event, wait_for_event,
  perform, report_svc_status, is_settled, is_start_pending, service_main, init_service,
  service_control_handler,
}
use wallchanger.Windows.Threads.{
  Threads, accepts, Sends, Step, main_goes, handler_goes, control, Reaches, begins, goes,
}

-- A mask without pause, continue and shutdown.
abbrev Small : Accepted → Type 0
Small m = m ≢ accept_pause_continue_stop_shutdown

-- A call that does not bring the large mask in.
abbrev IsNarrow : Action → Type 0
IsNarrow set_members = ⊥
IsNarrow (writes_accepted m) = Small m
IsNarrow _ = Unit

abbrev Narrow : List Action → Type 0
Narrow [] = Unit
Narrow (a ∷ l) = IsNarrow a × Narrow l

Narrow-append : (l k : List Action) → Narrow l → Narrow k → Narrow (l ++ k)
Narrow-append [] k p q = q
Narrow-append (a ∷ l) k (p, ps) q = (p, Narrow-append l k ps q)

mask-Small : (b : Bool) → Small (if b then accept_none else accept_stop)
mask-Small true e = cc
mask-Small false e = cc

point-IsNarrow : (b : Bool) → IsNarrow (if b then writes_check_point 0 else reads_number)
point-IsNarrow true = tt
point-IsNarrow false = tt

report-Narrow : (current : SvcState) (exit hint : ℕ) → Narrow (report_svc_status current exit hint)
unfolding report_svc_status
report-Narrow current exit hint = (
  tt,
  (
    tt,
    (tt, (mask-Small (is_start_pending current), (point-IsNarrow (is_settled current), (tt, tt)))),
  ),
)

init_service-Narrow : (created : Bool) (last_error : ℕ) → Narrow (init_service created last_error)
unfolding init_service
init_service-Narrow false last_error = (tt, tt)
init_service-Narrow true last_error = (tt, (tt, (tt, (tt, (tt, tt)))))

handler-Narrow : (c : Control) → Narrow (service_control_handler c)
unfolding service_control_handler
handler-Narrow control_stop = (tt, (tt, (tt, (tt, tt))))
handler-Narrow control_shutdown = (tt, (tt, (tt, (tt, tt))))
handler-Narrow control_continue = (tt, (tt, (tt, tt)))
handler-Narrow control_pause = (tt, (tt, (tt, tt)))
handler-Narrow control_other = tt

-- No report accepts more than `SERVICE_ACCEPT_STOP`.
abbrev StopAtMost : List SvcStatus → Type 0
StopAtMost [] = Unit
StopAtMost (x ∷ xs) = Small x.dw_controls_accepted × StopAtMost xs

StopAtMost-append :
    (xs : List SvcStatus) (x : SvcStatus)
    → StopAtMost xs
    → Small x.dw_controls_accepted
    → StopAtMost (xs ++ x ∷ [])
StopAtMost-append [] x p q = (q, tt)
StopAtMost-append (y ∷ ys) x (p, ps) q = (p, StopAtMost-append ys x ps q)

StopAtMost-back? :
    (xs : List SvcStatus) (x : SvcStatus)
    → StopAtMost xs
    → back? xs ≡ some x
    → Small x.dw_controls_accepted
StopAtMost-back? [] x p h = cc
StopAtMost-back? (y ∷ []) x (p, ps) h =
    subst (λ z. Small z.dw_controls_accepted) (some-injective y x h) p
StopAtMost-back? (y ∷ z ∷ ys) x (p, ps) h = StopAtMost-back? (z ∷ ys) x ps h

-- The status that both threads write, and what was reported of it.
abbrev Modest : ServiceBase → Type 0
Modest s = Small s.svc_status.dw_controls_accepted × StopAtMost s.reported

abbrev pub Result :
    (ServiceBase → List Action → Type 0) → Option (ServiceBase × List Action) → Type 0
Result P none = Unit
Result P (some (s, before)) = P s before

perform-Narrow :
    (a : Action) (s : ServiceBase)
    → IsNarrow a
    → Modest s
    → Result (λ s' before. Modest s' × Narrow before) (perform a s)
unfolding perform
perform-Narrow a s n (m, r) = go a n
  where
    Done : Option (ServiceBase × List Action) → Type 0
    Done o = Result (λ s' before. Modest s' × Narrow before) o

    set : (o : Option Bool) → s.svc_stop_event ≡ o → Done (perform set_event s)
    set none e = rw (e, perform) ((m, r), tt)
    set (some b) e = rw (e, perform) ((m, r), tt)

    wait : (o : Option Bool) → s.svc_stop_event ≡ o → Done (perform wait_for_event s)
    wait none e = rw (e, perform) ((m, r), tt)
    wait (some true) e = rw (e, perform) ((m, r), tt)
    wait (some false) e = rw (e, perform) tt

    go : (a : Action) → IsNarrow a → Done (perform a s)
    go set_members k = absurd k
    go (reports current exit hint) k = ((m, r), report-Narrow current exit hint)
    go reports_current k = ((m, r), (tt, tt))
    go (writes_accepted mask) k = ((k, r), tt)
    go reads_number k = ((m, r), (tt, (tt, tt)))
    go set_service_status k = ((m, StopAtMost-append s.reported s.svc_status r m), tt)
    go set_event k = set s.svc_stop_event refl
    go wait_for_event k = wait s.svc_stop_event refl
    go _ k = ((m, r), tt)

-- The thread of `service_main` before it writes the mask of its first report.
abbrev ToMask : List Action → Type 0
ToMask [] = ⊥
ToMask (set_members ∷ l) = ToMask l
ToMask (reports current exit hint ∷ l) = Narrow l
ToMask (writes_state current ∷ l) = ToMask l
ToMask (writes_exit_code exit ∷ l) = ToMask l
ToMask (writes_wait_hint hint ∷ l) = ToMask l
ToMask (writes_accepted m ∷ l) = Small m × Narrow l
ToMask (a ∷ l) = ⊥

-- The mask of `service_main` stands in the status only while nothing was reported yet, so that no
-- control was sent.
abbrev Before : ServiceBase → List Action → List Action → Type 0
Before s main handler = ToMask main × (handler ≡ []) × (s.reported ≡ [])

abbrev Later : ServiceBase → List Action → List Action → Type 0
Later s main handler = Modest s × Narrow main × Narrow handler

abbrev Masked : ServiceBase → List Action → List Action → Type 0
Masked s main handler = Before s main handler ⊎ Later s main handler

first-Masked :
    (a : Action) (rest : List Action) (s : ServiceBase)
    → ToMask (a ∷ rest)
    → s.reported ≡ []
    → Result (λ s' before. Masked s' (before ++ rest) []) (perform a s)
unfolding perform report_svc_status
first-Masked set_members rest s k e = inl (k, refl, e)
first-Masked (reports current exit hint) rest s k e = inl (
  (mask-Small (is_start_pending current), (point-IsNarrow (is_settled current), (tt, k))),
  refl,
  e,
)
first-Masked (writes_state current) rest s k e = inl (k, refl, e)
first-Masked (writes_exit_code exit) rest s k e = inl (k, refl, e)
first-Masked (writes_wait_hint hint) rest s k e = inl (k, refl, e)
first-Masked (writes_accepted m) rest s (small, k) e =
    inr ((small, subst StopAtMost (sym e) tt), k, tt)
first-Masked _ rest s k e = absurd k

pub result_of :
    (P : ServiceBase → List Action → Type 0) (o : Option (ServiceBase × List Action))
    (s : ServiceBase) (before : List Action)
    → Result P o
    → o ≡ some (s, before)
    → P s before
result_of P o s before h e = subst (Result P) e h

pub nothing_to_do : (a : Action) (rest l : List Action) → l ≡ a ∷ rest → l ≡ [] → ⊥
nothing_to_do a rest l e f = cc

step-Masked :
    (t t' : Threads)
    → Step t t'
    → Masked t.service t.main t.handler
    → Masked t'.service t'.main t'.handler
step-Masked t _ (main_goes _ a rest before s e h) (inl (k, idle, none_yet)) =
    subst (λ l. Masked s (before ++ rest) l) (sym idle)
      (result_of (λ s' b. Masked s' (b ++ rest) []) (perform a t.service) s before
        (first-Masked a rest t.service (subst ToMask e k) none_yet) h)
step-Masked t _ (main_goes _ a rest before s e h) (inr (modest, main, handler)) =
    let (n, ns) = subst Narrow e main in
    let (modest', nb) =
      result_of (λ s' b. Modest s' × Narrow b) (perform a t.service) s before
        (perform-Narrow a t.service n modest) h in
    inr (modest', Narrow-append before rest nb ns, handler)
step-Masked t _ (handler_goes _ a rest before s e h) (inl (k, idle, none_yet)) =
    absurd (nothing_to_do a rest t.handler e idle)
step-Masked t _ (handler_goes _ a rest before s e h) (inr (modest, main, handler)) =
    let (n, ns) = subst Narrow e handler in
    let (modest', nb) =
      result_of (λ s' b. Modest s' × Narrow b) (perform a t.service) s before
        (perform-Narrow a t.service n modest) h in
    inr (modest', main, Narrow-append before rest nb ns)
step-Masked t _ (control _ c e (x, last, ready, accepted)) (inl (k, idle, none_yet)) =
    absurd (no_last (subst (λ l. back? l ≡ some x) none_yet last))
  where
    no_last : (back? {A = SvcStatus} [] ≡ some x) → ⊥
    no_last h = cc
step-Masked t _ (control _ c e h) (inr (modest, main, handler)) =
    inr (modest, main, handler-Narrow c)

Reaches-Masked :
    (registered created : Bool) (last_error : ℕ) (t : Threads)
    → Reaches registered created last_error t
    → Masked t.service t.main t.handler
unfolding service_main
Reaches-Masked false created last_error _ begins = inr (((λ e. cc), tt), (tt, tt), tt)
Reaches-Masked true created last_error _ begins =
    inl (init_service-Narrow created last_error, refl, refl)
Reaches-Masked registered created last_error t' (goes t _ r s) =
    step-Masked t t' s (Reaches-Masked registered created last_error t r)

reported-StopAtMost :
    (s : ServiceBase) (main handler : List Action) → Masked s main handler → StopAtMost s.reported
reported-StopAtMost s main handler (inl (k, idle, none_yet)) = subst StopAtMost (sym none_yet) tt
reported-StopAtMost s main handler (inr ((small, few), main_narrow, handler_narrow)) = few

-- In every state of the threads, the only control that the service control manager can send is to
-- stop, or one that every service gets: the mask of `service_main` with pause, continue and
-- shutdown is never reported.
pub Sends-stop :
    (registered created : Bool) (last_error : ℕ) (t : Threads) (c : Control)
    → Reaches registered created last_error t
    → Sends t.service.reported c
    → (c ≡ control_stop) ⊎ (c ≡ control_other)
Sends-stop registered created last_error t c r (x, last, ready, accepted) =
    let few =
      reported-StopAtMost t.service t.main t.handler
        (Reaches-Masked registered created last_error t r) in
    go c x.dw_controls_accepted (StopAtMost-back? t.service.reported x few last) accepted
  where
    go :
        (c : Control) (m : Accepted)
        → Small m
        → accepts m c ≡ true
        → (c ≡ control_stop) ⊎ (c ≡ control_other)
    go control_other m p h = inr refl
    go control_stop m p h = inl refl
    go c accept_none p h = cc
    go c accept_stop p h = cc
    go c accept_pause_continue_stop_shutdown p h = absurd (p refl)
