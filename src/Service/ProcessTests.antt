-- ===== src/Service/ProcessTests.antt =====
-- The theorems on the service as a program, and on the threads of src/change_lib/net, at concrete
-- states.
use wallchanger.Base.{
  Bool, true, false, ◌||◌, ◌≡◌, refl, List, [], ◌∷◌, some, none, done, fault, terminated, ◌>>=◌,
  string_ordered, ◌==◌, String, arith,
}
use wallchanger.CacheLib.{CacheLib, empty_lib, modified}
use wallchanger.CacheLib.Saved.{serialize}
use wallchanger.PathTable
use wallchanger.Manager.{Files}
use wallchanger.Net.Lifetime
use wallchanger.Net.Lifetime.{
  Execution, fresh_execution, run_thread, Refuses, Unserved, start_again,
}
use wallchanger.Net.Types.{MessageType}
use wallchanger.Net.Connection.{Connection, OwnedMessage, is_connected}
use wallchanger.Service.State.{Disk, State, store_state}
use wallchanger.Service.Current.{current}
use wallchanger.Service.Accepting.{accept, accept_lem}
use wallchanger.Service.Running.{concat, main_loop}
use wallchanger.Service.Process.{
  FileSystem, ChangeService, constructed, start, work, stop, life, prepared, main,
  handled_and_stored, served, Files_of, stores_handled, Idle, start-stop-Idle,
}
use wallchanger.Service.Tests.{bytes, world, state, ping}

-- A file system that is the list of its directories, where nothing throws, and the history can be
-- written once there is one.
abbrev has_directory : String → List String → Bool
has_directory d [] = false
has_directory d (e ∷ fs) = (e == d) || has_directory d fs

abbrev disk : FileSystem (List String)
disk = record {
  exists = λ d fs. some (has_directory d fs);
  create_directories = λ d fs. some (d ∷ fs);
  writable = λ path fs. has_directory "/data/data" fs;
}

abbrev full_disk : Disk
full_disk = record { data_directory = "/data"; writable = λ path. false }

abbrev pinged : OwnedMessage MessageType
pinged = record { remote = some 1; msg = ping }

abbrev batches : List (List (OwnedMessage MessageType))
batches = (pinged ∷ []) ∷ [] ∷ (pinged ∷ pinged ∷ []) ∷ []

stores_handled_example :
    (Files_of current bytes
        (λ n. world)
        (life current bytes (λ n. world) full_disk false false batches state)
      ≡ handled_and_stored current bytes (λ n. world) full_disk (concat batches) state)
    × (main current bytes (λ n. world) disk "/data" "/log" false false batches state []
        ≡ prepared disk "/data" "/log" []
          >>= served current bytes (λ n. world) disk "/data" "/log" batches state)
stores_handled_example =
    stores_handled current bytes (λ n. world) disk full_disk "/data" "/log" batches state []
      (omega arith)

abbrev bare : State CacheLib
bare = record state { m_cache = empty_lib }

abbrev files : Files
files = record { history = none; path_table = PathTable.store bare.m_path_buf; libraries = none }

abbrev running : Execution
running = record fresh_execution { joinable = true; accepting = 1 }

abbrev going : ChangeService CacheLib
going = record (constructed bare) { m_server = running; m_exec = true }

abbrev over : ChangeService CacheLib
over = record going { m_exec = false; m_stop = true }

starts : start false false (constructed bare) ≡ done going
unfolding start Lifetime.start run_thread
starts = refl

stops : stop current full_disk (work current bytes (λ n. world) [] going) ≡ done (files, over)
unfolding work main_loop stop store_state serialize current modified
stops = refl

start-stop-Idle_example : Idle current bytes (λ n. world) (start false false over)
start-stop-Idle_example =
    start-stop-Idle current bytes (λ n. world) full_disk false false (constructed bare) going over
      files [] false false refl starts refl stops

begins : Lifetime.start false false fresh_execution ≡ done (true, running)
unfolding Lifetime.start run_thread
begins = refl

accept_lem_example :
    (accept 3 70 1 false ≡ fault terminated)
    × (con : Connection MessageType) × (accept 3 70 1 true ≡ done con)
    × (con.posted ≡ [])
    × (con.m_outbound ≡ [])
    × (is_connected con ≡ true)
    × (con.m_id ≡ 70)
accept_lem_example = accept_lem 3 70 1
