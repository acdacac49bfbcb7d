-- ===== src/Net/Lifetime.antt =====
-- How the thread of an `asio::io_context` is started and stopped: src/change_lib/net/
-- server_interface.hpp and client_interface.hpp. What asio and the library of threads answer is an
-- argument: whether a call throws. `run` returns at once on a context that is stopped, and on one
-- without work.
use wallchanger.Base.{
  ℕ, ◌+◌, Bool, true, false, not, ◌&&◌, ◌≡◌, refl, some, if◌then◌else◌, Outcome, done, fault,
  terminated, Bool-cases, inl, inr, subst,
}
use wallchanger.Net.Connection.{Connection}
use wallchanger.Net.Client.{ClientInterface, disconnect}

pub record Execution : Type 0 where
  -- Of `m_context`.
  pub stopped : Bool
  -- `m_execution_thread.joinable()`.
  pub joinable : Bool
  -- The calls of `async_accept` whose handler was not called yet.
  pub accepting : ℕ

-- After the constructor.
abbrev pub fresh_execution : Execution
fresh_execution = record { stopped = false; joinable = false; accepting = 0 }

-- A thread runs the context, and so its handlers are called.
abbrev pub is_served : Execution → Bool
is_served e = e.joinable && not e.stopped

-- `m_execution_thread = std::thread(...)`: the new thread is made first.
unfoldable pub run_thread : Bool → Execution → Outcome (Bool × Execution)
run_thread thread_throws e =
    if thread_throws
    then done (false, e)
    else if e.joinable
    then fault terminated
    else done (true, record e { joinable = true })

-- Whether `async_accept` throws, and whether the thread does: whether the server was started.
unfoldable pub start : Bool → Bool → Execution → Outcome (Bool × Execution)
unfolding run_thread
start accept_throws thread_throws e =
    if accept_throws
    then done (false, e)
    else run_thread thread_throws (record e { accepting = e.accepting + 1 })

-- `run` of a stopped context returns, so that the thread can be joined.
unfoldable pub stop : Execution → Execution
stop e = record e { stopped = true; joinable = false }

-- The destructor calls `stop` again.
stop_again : (e : Execution) → stop (stop e) ≡ stop e
unfolding stop
stop_again e = refl

-- What a start gives that starts nothing, and one after which no handler is called.
abbrev pub Refuses : Outcome (Bool × Execution) → Type 0
Refuses (done r) = r.0 ≡ false
Refuses (fault e) = e ≡ terminated

abbrev pub Unserved : Outcome (Bool × Execution) → Type 0
Unserved (done r) = is_served r.1 ≡ false
Unserved (fault e) = ⊥

start-Unserved : (a t : Bool) (e : Execution) → Unserved (start a t (stop e))
unfolding start stop run_thread
start-Unserved true t e = refl
start-Unserved false true e = refl
start-Unserved false false e = refl

pub start-Refuses : (a t : Bool) (e : Execution) → e.joinable ≡ true → Refuses (start a t e)
unfolding start run_thread
start-Refuses true t e h = refl
start-Refuses false true e h = refl
start-Refuses false false e h = rw (h, start) refl

abbrev pub Joinable : Outcome (Bool × Execution) → Type 0
Joinable (done (true, e)) = e.joinable ≡ true
Joinable _ = Unit

pub start-Joinable : (a t : Bool) (e : Execution) → Joinable (start a t e)
unfolding start run_thread
start-Joinable true t e = tt
start-Joinable false true e = tt
start-Joinable false false e = elim (Bool-cases e.joinable) [
  | inl busy ↦ rw (busy, start) tt
  | inr free ↦ rw (free, start) refl
]

pub joinable-start :
    (a t : Bool) (e e' : Execution) → start a t e ≡ done (true, e') → e'.joinable ≡ true
joinable-start a t e e' h = subst Joinable h (start-Joinable a t e)

-- A server that was started is not started a second time: while it runs, `start` is false or ends
-- the program, whatever throws. After `stop`, `start` returns, but then the server does not serve:
-- the context stays stopped, so that the new thread ends at once.
pub start_again :
    (a t : Bool) (e e' : Execution) (a' t' : Bool)
    → start a t e ≡ done (true, e')
    → Refuses (start a' t' e') × Unserved (start a' t' (stop e'))
start_again a t e e' a' t' h =
    (start-Refuses a' t' e' (joinable-start a t e e' h), start-Unserved a' t' e')

module _ {T : Type 0} where
  -- Whether the host is resolved and the thread is made, and the new connection, which takes the
  -- place of the old one. Its `connect_to_server` only asks for a handler to be called.
  unfoldable pub connect :
      Bool → Bool → Connection T → ClientInterface T → Outcome (Bool × ClientInterface T)
  connect resolve_throws thread_throws con c =
      if resolve_throws
      then done (false, c)
      else if thread_throws
      then done (false, record c { m_connection = some con })
      else if c.running
      then fault terminated
      else done (true, record c { m_connection = some con; running = true })

  -- After `disconnect` the client connects again only in name: the context stays stopped.
  abbrev Stopped : Outcome (Bool × ClientInterface T) → Type 0
  Stopped (done r) = r.1.stopped ≡ true
  Stopped (fault e) = ⊥

  connect-disconnect :
      (r t : Bool) (con : Connection T) (c : ClientInterface T)
      → Stopped (connect r t con (disconnect c).0)
  unfolding connect disconnect
  connect-disconnect true t con c = refl
  connect-disconnect false true con c = refl
  connect-disconnect false false con c = refl
