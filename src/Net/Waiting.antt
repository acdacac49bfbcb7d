-- ===== src/Net/Waiting.antt =====
-- `connect_queue::wait` and `push_back` of src/change_lib/net/connect_queue.hpp, and
-- `server_interface::update` that waits, of src/change_lib/net/server_interface.hpp, as two threads:
-- the thread of the context pushes, the other one calls `update` again and again. A step is what a
-- thread does between two accesses to a mutex or to the condition variable; asio and the library of
-- threads decide the order.
use wallchanger.Base.{
  ℕ, zero, suc, Bool, true, false, ◌≡◌, List, [], ◌∷◌, ◌++◌, Outcome, done, fault, Option, none,
  some, if◌then◌else◌,
}
use wallchanger.Net.Queue.{is_empty, push_back, pop_front}

-- The thread that pushes. `locks` is the first line of `push_back`.
pub data Producer {ℓ} (A : Type ℓ) : Type ℓ where
  idle : Producer A
  -- `m_queue_mutex` is held, and `data` not yet in the queue.
  pushing : A → Producer A
  pushed : Producer A
  -- `m_blocking_mutex` is held as well, before and after `notify_one`.
  notifying notified : Producer A
  -- `ulock` is gone, `lock` not yet.
  leaving : Producer A

-- The thread that calls `update(max_msg, true)`.
pub data Consumer : Type 0 where
  -- Before the `empty()` of `wait`, and after it.
  testing : Consumer
  tested : Bool → Consumer
  -- `m_blocking_mutex` is held, before `m_cv_blocking.wait`.
  entering : Consumer
  -- In `m_cv_blocking.wait`: not notified, notified, and back with the mutex.
  asleep woken awake : Consumer
  -- At the condition of the loop of `update`, and after an `empty()` that is false: so many
  -- messages may still be taken.
  looping popping : ℕ → Consumer
  -- The element of an empty deque was taken.
  broken : Consumer

pub record Waiting {ℓ} (A : Type ℓ) : Type ℓ where
  pub queue : List A
  pub queue_locked : Bool
  pub blocking_locked : Bool
  pub producer : Producer A
  pub consumer : Consumer
  -- What was pushed, and what was handed over, since the start.
  pub given : List A
  pub taken : List A

-- `notify_one` wakes the thread that waits, if it does.
abbrev pub notify : Consumer → Consumer
notify asleep = woken
notify c = c

-- Where the loop of `update` goes on after `empty()`.
abbrev pub after_empty : Bool → ℕ → Consumer
after_empty true left = testing
after_empty false left = popping left

module _ {ℓ} {A : Type ℓ} where
  abbrev pub at_first : Waiting A
  at_first = record {
    queue = [];
    queue_locked = false;
    blocking_locked = false;
    producer = idle;
    consumer = testing;
    given = [];
    taken = [];
  }

  -- The next step of the thread that pushes, `x` where it begins a call; `none` where it waits for
  -- a mutex.
  unfoldable pub produce : A → Producer A → Waiting A → Option (Waiting A)
  produce x idle s =
      if s.queue_locked then none else some (record s { queue_locked = true; producer = pushing x })
  produce x (pushing y) s =
      some (record s { queue = push_back y s.queue; producer = pushed; given = s.given ++ y ∷ [] })
  produce x pushed s =
      if s.blocking_locked
      then none
      else some (record s { blocking_locked = true; producer = notifying })
  produce x notifying s = some (record s { producer = notified; consumer = notify s.consumer })
  produce x notified s = some (record s { blocking_locked = false; producer = leaving })
  produce x leaving s = some (record s { queue_locked = false; producer = idle })

  unfoldable pub pop : ℕ → Waiting A → Outcome (A × List A) → Waiting A
  pop left s (done (x, rest)) = record s {
    queue = rest;
    consumer = looping left;
    taken = s.taken ++ x ∷ [];
  }
  pop left s (fault e) = record s { consumer = broken }

  -- The next step of the thread that takes. A thread that sleeps may wake without being notified.
  unfoldable pub consume : ℕ → Consumer → Waiting A → Option (Waiting A)
  unfolding pop
  consume max_msg testing s =
      if s.queue_locked then none else some (record s { consumer = tested (is_empty s.queue) })
  consume max_msg (tested false) s = some (record s { consumer = looping max_msg })
  consume max_msg (tested true) s =
      if s.blocking_locked
      then none
      else some (record s { blocking_locked = true; consumer = entering })
  consume max_msg entering s = some (record s { blocking_locked = false; consumer = asleep })
  consume max_msg asleep s = some (record s { consumer = woken })
  consume max_msg woken s =
      if s.blocking_locked
      then none
      else some (record s { blocking_locked = true; consumer = awake })
  consume max_msg awake s = some (record s { blocking_locked = false; consumer = testing })
  consume max_msg (looping zero) s = some (record s { consumer = testing })
  consume max_msg (looping (suc left)) s =
      if s.queue_locked
      then none
      else some (record s { consumer = after_empty (is_empty s.queue) left })
  consume max_msg (popping left) s =
      if s.queue_locked then none else some (pop left s (pop_front s.queue))
  consume max_msg broken s = none

  module _ (max_msg : ℕ) where
    -- The states after any number of steps, of the two threads in any order.
    pub data Steps (s : Waiting A) : Waiting A → Type ℓ where
      stay : Steps s s
      produces : (x : A) (t u : Waiting A) → Steps s t → produce x t.producer t ≡ some u → Steps s u
      consumes : (t u : Waiting A) → Steps s t → consume max_msg t.consumer t ≡ some u → Steps s u
