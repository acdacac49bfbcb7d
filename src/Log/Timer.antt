-- ===== src/Log/Timer.antt =====
-- src/scoped_timer.hpp: a timer that writes into the log when its scope ends. A point of the steady
-- clock is a number of nanoseconds, which never goes back.
use wallchanger.Base.{
  ℕ, ◌+◌, ◌-◌, ◌*◌, ◌/◌, ◌<◌, ◌≤◌, true, ◌≡◌, refl, List, [], ◌∷◌, String, string_ordered, ◌==◌,
  Outcome, done, ◌>>=◌, arith,
}
use wallchanger.Log.{SpdLogger, Logger, create_logger, set_pattern, log_with}
use wallchanger.Log.Calls.{LogCall, after_calls, sets_pattern, log_with-create}

-- `to_dur`, by the macros that name it.
pub data Duration : Type 0 where
  nanoseconds microseconds milliseconds seconds : Duration

abbrev pub ticks : Duration → ℕ
ticks nanoseconds = 1
ticks microseconds = 1000
ticks milliseconds = 1000000
ticks seconds = 1000000000

pub record ScopedTimer : Type 0 where
  pub start : ℕ
  pub name : String
  pub ext : String

-- What is written: `name_`, `elapsed` and `ext_`.
pub record Line : Type 0 where
  pub logger : SpdLogger
  pub line_name : String
  pub elapsed : ℕ
  pub line_ext : String

unfoldable pub scoped_timer : ℕ → String → String → Logger → ScopedTimer × Logger
scoped_timer now name ext l = (
  record { start = now; name = name; ext = ext },
  set_pattern "Timer" "[%c][%n] %v%$" (create_logger "Timer" l),
)

-- The destructor; `duration_cast` cuts off.
unfoldable pub finished : Duration → ℕ → ScopedTimer → Logger → Outcome Line
finished to_dur now t l = log_with "Timer" l >>= λ log. done (record {
  logger = log;
  line_name = t.name;
  elapsed = (now - t.start) / ticks to_dur;
  line_ext = t.ext;
})

elapsed_lem :
    (d : Duration) (n : ℕ) → (n / ticks d * ticks d ≤ n) × (n < (n / ticks d + 1) * ticks d)
elapsed_lem nanoseconds n = omega arith
elapsed_lem microseconds n = omega arith
elapsed_lem milliseconds n = omega arith
elapsed_lem seconds n = omega arith

-- A timer, with any calls of the loggers before it and in its scope: at the end it finds the logger
-- "Timer", and writes its name with the whole units of the time that has passed, no more and less
-- than one unit too few.
pub finished-scoped_timer :
    (d : Duration) (from until : ℕ) (name ext : String) (before inside : List LogCall)
    → (x : Line) × (finished d until
          (scoped_timer from name ext (after_calls before [])).0
          (after_calls inside (scoped_timer from name ext (after_calls before [])).1)
        ≡ done x)
      × ((x.logger.name == "Timer") ≡ true)
      × (x.line_name ≡ name)
      × (x.elapsed * ticks d ≤ until - from)
      × (until - from < (x.elapsed + 1) * ticks d)
unfolding scoped_timer finished after_calls
finished-scoped_timer d from until name ext before inside =
    let (log, found, named) =
      log_with-create before (sets_pattern "Timer" "[%c][%n] %v%$" ∷ inside) "Timer" in
    let bounds = elapsed_lem d (until - from) in
    let x : Line = record {
      logger = log;
      line_name = name;
      elapsed = (until - from) / ticks d;
      line_ext = ext;
    } in
    (x, rw found refl, named, refl, bounds.0, bounds.1)
