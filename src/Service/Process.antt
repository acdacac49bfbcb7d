-- ===== src/Service/Process.antt =====
-- `main` of src/change_service/service_main.cpp on Linux, and `change_service` of
-- src/change_service/change_service.hpp on Windows. The file system is a parameter, and so is what
-- asio and the library of threads answer. A signal handler only ends the loop.
use mathlib.Core.List.{foldl}
use wallchanger.Base.{
  ℕ, Bool, true, false, ◌≡◌, refl, subst, List, [], String, Option, none, some, if◌then◌else◌,
  Outcome, done, fault, terminated, or_fault, ◌>>=◌, arith, Satisfies, >>=-Satisfies,
  Satisfies-done,
}
use wallchanger.Manager.{Files}
use wallchanger.Net.Types.{MessageType}
use wallchanger.Net.Connection.{OwnedMessage}
use wallchanger.Net.Server.{handle}
use wallchanger.Net.Lifetime.{Execution, fresh_execution}
use wallchanger.Net.Lifetime
use wallchanger.Service.Library.{Library}
use wallchanger.Service.State.{Disk, State, store_state}
use wallchanger.Service.Server.{Json, World}
use wallchanger.Service.Running.{
  Serving, serve, main_loop, concat, no_limit, Bounded, main_loop_lem,
}

-- `exists` and `create_directories` throw, which is `none`.
pub record FileSystem (F : Type 0) : Type 0 where
  pub exists : String → F → Option Bool
  pub create_directories : String → F → Option F
  pub writable : String → F → Bool

module _ {F : Type 0} (os : FileSystem F) where
  -- What throws in `main` ends the program.
  unfoldable pub provide : String → F → Outcome F
  provide d fs = or_fault terminated (os.exists d fs) >>= λ here.
      if here then done fs else or_fault terminated (os.create_directories d fs)

  -- Both directories of the program, made where they do not exist.
  abbrev pub prepared : String → String → F → Outcome F
  prepared data_dir log_dir fs = provide data_dir fs >>= provide log_dir

-- The server right after its constructor.
abbrev pub first : {L : Type 0} → State L → Serving L
first s = record { m_state = s; sent = []; handled = 0 }

-- `change_service`, with the thread of `m_exec` as the result of its loop.
pub record ChangeService (L : Type 0) : Type 0 where
  pub m_server : Execution
  pub serving : Outcome (Serving L)
  -- Whether `m_exec` is joinable.
  pub m_exec : Bool
  pub m_stop : Bool

abbrev pub constructed : {L : Type 0} → State L → ChangeService L
constructed s = record {
  m_server = fresh_execution;
  serving = done (first s);
  m_exec = false;
  m_stop = false;
}

module _ {L : Type 0} where
  -- Without a thread `WaitForSingleObject` fails, and `start` returns.
  unfoldable pub start : Bool → Bool → ChangeService L → Outcome (ChangeService L)
  start accept_throws thread_throws s =
      Lifetime.start accept_throws thread_throws s.m_server >>= λ r.
      if r.0
      then if s.m_exec then fault terminated else done (record s { m_server = r.1; m_exec = true })
      else done (record s { m_server = r.1 })

module _ {L : Type 0} (lib : Library L) (disk : Disk) where
  -- The thread is joined: where it ended the program, nothing is stored.
  unfoldable pub stop : ChangeService L → Outcome (Files × ChangeService L)
  stop s = s.serving >>= λ serving. store_state lib disk serving.m_state >>= λ files.
      done (files, record s { m_stop = true; m_exec = false })

module _ {L J : Type 0} (lib : Library L) (json : Json J) (world : ℕ → World) where
  -- The loop of the thread, over the batches that come before `m_stop` is set.
  unfoldable pub work : List (List (OwnedMessage MessageType)) → ChangeService L → ChangeService L
  work batches s =
      if s.m_exec
      then if s.m_stop
        then s
        else record s { serving = (main_loop lib json world batches [] s.serving).1 }
      else s

  -- The service from its constructor to a request to stop it.
  abbrev pub life :
      Disk
      → Bool
      → Bool
      → List (List (OwnedMessage MessageType))
      → State L
      → Outcome (Files × ChangeService L)
  life disk accept_throws thread_throws batches s =
      start accept_throws thread_throws (constructed s) >>= λ started.
      stop lib disk (work batches started)

  -- `main` on Linux: the file system after its preparation, and what is stored.
  module _ {F : Type 0} (os : FileSystem F) (data_directory log_directory : String) where
    -- The disk that the service stores its state on.
    abbrev pub disk_of : F → Disk
    disk_of fs = record { data_directory = data_directory; writable = λ path. os.writable path fs }

    unfoldable pub main :
        Bool
        → Bool
        → List (List (OwnedMessage MessageType))
        → State L
        → F
        → Outcome (F × Option Files)
    main accept_throws thread_throws batches s fs =
        prepared os data_directory log_directory fs >>= λ ready.
        Lifetime.start accept_throws thread_throws fresh_execution >>= λ r.
        if r.0
        then (main_loop lib json world batches [] (done (first s))).1 >>= (λ serving.
            store_state lib (disk_of ready) serving.m_state >>= λ files. done (ready, some files))
        else done (ready, none)

  -- The messages handled one after the other, and then the state stored.
  abbrev pub handled_and_stored : Disk → List (OwnedMessage MessageType) → State L → Outcome Files
  handled_and_stored disk msgs s =
      foldl (handle (serve lib json world)) (done (first s)) msgs >>= λ serving.
      store_state lib disk serving.m_state

  abbrev pub Files_of : Outcome (Files × ChangeService L) → Outcome Files
  Files_of o = o >>= λ r. done r.0

  put_back :
      (w : ChangeService L) (o : Outcome Files) → Files_of (o >>= λ files. done (files, w)) ≡ o
  put_back w (done files) = refl
  put_back w (fault e) = refl

  Files_of-stop :
      (disk : Disk) (w : ChangeService L) (o : Outcome (Serving L))
      → Files_of (o >>= λ r. store_state lib disk r.m_state >>= λ files. done (files, w))
        ≡ (o >>= λ r. store_state lib disk r.m_state)
  Files_of-stop disk w (done r) = put_back w (store_state lib disk r.m_state)
  Files_of-stop disk w (fault e) = refl

  stored-bind :
      {B : Type 0} (disk : Disk) (f : Files → B) (o : Outcome (Serving L))
      → (o >>= λ r. store_state lib disk r.m_state >>= λ files. done (f files))
        ≡ (o >>= λ r. store_state lib disk r.m_state) >>= λ files. done (f files)
  stored-bind disk f (done r) = refl
  stored-bind disk f (fault e) = refl

  module _ {F : Type 0} (os : FileSystem F) (data_dir log_dir : String) where
    -- What the Linux program does once its directories are there.
    abbrev pub served :
        List (List (OwnedMessage MessageType)) → State L → F → Outcome (F × Option Files)
    served batches s ready =
        handled_and_stored (disk_of os data_dir log_dir ready) (concat batches) s >>= λ files.
        done (ready, some files)

    main-handled :
        (batches : List (List (OwnedMessage MessageType))) (s : State L) (fs : F)
        → Bounded no_limit batches
        → main os data_dir log_dir false false batches s fs
          ≡ prepared os data_dir log_dir fs >>= served batches s
    unfolding main Lifetime.start Lifetime.run_thread
    main-handled batches s fs h = on_disk (prepared os data_dir log_dir fs)
      where
        on_disk :
            (o : Outcome F)
            → (o >>= λ ready.
                (main_loop lib json world batches [] (done (first s))).1 >>= λ serving.
                store_state lib (disk_of os data_dir log_dir ready) serving.m_state >>= λ files.
                done (ready, some files))
              ≡ o >>= served batches s
        on_disk (fault e) = refl
        on_disk (done ready) = rw (main_loop_lem lib json world batches (done (first s)) h) (
            stored-bind (disk_of os data_dir log_dir ready) (λ files. (ready, some files))
              (foldl (handle (serve lib json world)) (done (first s)) (concat batches)))

  life-handled :
      (disk : Disk) (batches : List (List (OwnedMessage MessageType))) (s : State L)
      → Bounded no_limit batches
      → Files_of (life disk false false batches s) ≡ handled_and_stored disk (concat batches) s
  unfolding start work stop Lifetime.start Lifetime.run_thread
  life-handled disk batches s h = rw (main_loop_lem lib json world batches (done (first s)) h) (
      Files_of-stop disk _
        (foldl (handle (serve lib json world)) (done (first s)) (concat batches)))

  -- Where the server starts, the Windows service and the Linux program store the same on the same
  -- disk: what the messages that came in, handled each once and in their order, leave of the state.
  -- No message stays in the queue before the end, if fewer than 2^64 come in between two calls of
  -- `update`. On Linux this holds once both directories are there, and what throws while they are
  -- made ends the program before.
  pub stores_handled :
      {F : Type 0} (os : FileSystem F) (disk : Disk) (data_dir log_dir : String)
      (batches : List (List (OwnedMessage MessageType))) (s : State L) (fs : F)
      → Bounded no_limit batches
      → (Files_of (life disk false false batches s) ≡ handled_and_stored disk (concat batches) s)
        × (main os data_dir log_dir false false batches s fs
            ≡ prepared os data_dir log_dir fs >>= served os data_dir log_dir batches s)
  stores_handled os disk data_dir log_dir batches s fs h =
      (life-handled disk batches s h, main-handled os data_dir log_dir batches s fs h)

  -- A start that leaves no thread of the service.
  abbrev pub Idle : Outcome (ChangeService L) → Type 0
  Idle (done s) = s.m_exec ≡ false
  Idle (fault e) = e ≡ terminated

  -- With a thread of the service the server has one as well.
  abbrev Threaded : Outcome (ChangeService L) → Type 0
  Threaded (done s) = s.m_exec ≡ true → s.m_server.joinable ≡ true
  Threaded (fault e) = Unit

  -- What `start` does with the answer of the server.
  abbrev with_server : ChangeService L → Bool × Execution → Outcome (ChangeService L)
  with_server s r =
      if r.0
      then if s.m_exec then fault terminated else done (record s { m_server = r.1; m_exec = true })
      else done (record s { m_server = r.1 })

  with_server-Threaded :
      (s : ChangeService L) (o : Outcome (Bool × Execution))
      → s.m_exec ≡ false
      → Lifetime.Joinable o
      → Threaded (o >>= with_server s)
  with_server-Threaded s (done (true, e)) h j = rw (h, with_server) (λ k. j)
  with_server-Threaded s (done (false, e)) h j = λ k. cc
  with_server-Threaded s (fault e) h j = tt

  with_server-Idle :
      (s : ChangeService L) (o : Outcome (Bool × Execution))
      → s.m_exec ≡ false
      → Lifetime.Refuses o
      → Idle (o >>= with_server s)
  with_server-Idle s (done (true, e)) h j = cc
  with_server-Idle s (done (false, e)) h j = h
  with_server-Idle s (fault e) h j = j

  work-m_server :
      (batches : List (List (OwnedMessage MessageType))) (s : ChangeService L)
      → (work batches s).m_server ≡ s.m_server
  unfolding work
  work-m_server batches s = ground arith

  -- What `stop` leaves.
  abbrev Ended : Execution → Files × ChangeService L → Type 0
  Ended e r = (r.1.m_exec ≡ false) × (r.1.m_server ≡ e)

  stop-Ended : (disk : Disk) (w : ChangeService L) → Satisfies (Ended w.m_server) (stop lib disk w)
  unfolding stop
  stop-Ended disk w = >>=-Satisfies (Ended w.m_server) w.serving _ (λ serving.
      >>=-Satisfies (Ended w.m_server) (store_state lib disk serving.m_state) _
        (λ files. (refl, refl)))

  -- A service that was started, with or without messages, and stopped does not start again, as
  -- after a pause: whatever throws, `start` then ends the program or leaves no thread.
  pub start-stop-Idle :
      (disk : Disk) (a t : Bool) (s s' s'' : ChangeService L) (files : Files)
      (batches : List (List (OwnedMessage MessageType))) (a' t' : Bool)
      → s.m_exec ≡ false
      → start a t s ≡ done s'
      → s'.m_exec ≡ true
      → stop lib disk (work batches s') ≡ done (files, s'')
      → Idle (start a' t' s'')
  unfolding start
  start-stop-Idle disk a t s s' s'' files batches a' t' idle started running stopped =
      let threaded : s'.m_server.joinable ≡ true =
        subst Threaded started
          (with_server-Threaded s (Lifetime.start a t s.m_server) idle
            (Lifetime.start-Joinable a t s.m_server))
          running in
      let ended =
        Satisfies-done (Ended (work batches s').m_server) (stop lib disk (work batches s'))
          (files, s'') (stop-Ended disk (work batches s')) stopped in
      with_server-Idle s'' (Lifetime.start a' t' s''.m_server) ended.0 (
        Lifetime.start-Refuses a' t' s''.m_server (rw (ended.1, work-m_server batches s') threaded))
