-- ===== src/Service/Tests.antt =====
-- The theorems on src/change_service at a state with two collections.
use wallchanger.Base.{
  ℕ, false, ◌≡◌, refl, List, [], ◌∷◌, ◌++◌, some, none, done, string_ordered, nat_ordered, ◌==◌,
  ◌/◌, ◌%◌, ◌^◌, find_first, contains_first, if◌then◌else◌,
}
use wallchanger.CacheLib.{CacheLib, exists, merge_cache}
use wallchanger.CacheLib.Samples.{two}
use wallchanger.Crc.{crc, generate_crc_table, generate, byte_checksum, crc_byte}
use wallchanger.PathTable
use wallchanger.PathTable.{PathTable}
use wallchanger.Manager.{pick}
use wallchanger.Manager.Records.{Wall}
use wallchanger.Net.Message.{Message, push, finalize, validate}
use wallchanger.Net.Types.{MessageType, msg_to_json}
use wallchanger.Service.State.{State, chosen, get_next_wallpaper, mark_favorate, merge_collection}
use wallchanger.Service.Server.{Json, World, with_bool, handle, m_process, on_message}
use wallchanger.Service.Current.{current}
use wallchanger.Service.Replies.{IsProcessed, on_message-IsProcessed}
use wallchanger.Service.Silent.{Same, on_message-Silent}

-- JSON values that are their bytes, of which the command `Merge_Collection` of "sea" and "land" is
-- read.
abbrev pub bytes : Json (List ℕ)
bytes = record {
  to_cbor = λ j. j;
  from_cbor = some;
  command = λ j. record {
    text = λ key. some (if key == "col1" then "sea" else "land");
    flag = λ key. none;
    path = λ key. none;
  };
  of_wall = λ wall. wall.index ∷ [];
  of_collection = λ c only. [];
  of_names = λ l only. [];
  of_status = λ n t. n ∷ t ∷ [];
}

abbrev little_endian : ℕ → List ℕ
little_endian t =
    t % 256
    ∷ t / 2 ^ 8 % 256
    ∷ t / 2 ^ 16 % 256
    ∷ t / 2 ^ 24 % 256
    ∷ t / 2 ^ 32 % 256
    ∷ t / 2 ^ 40 % 256
    ∷ t / 2 ^ 48 % 256
    ∷ t / 2 ^ 56 % 256
    ∷ []

abbrev pub world : World
world = record {
  draws = 0 ∷ 1 ∷ [];
  directories = record { directory = λ p. none; recursive_directory = λ p. none };
  now = 9;
  start_time = 4;
  connections = 1;
  time_bytes = little_endian;
}

abbrev pub state : State CacheLib
state = record {
  m_cache = two;
  m_path_buf = record { m_store = (7, "/photos") ∷ []; m_modified = false };
  m_previous = [];
}

abbrev pub ping : Message MessageType
ping = with_bool 3 MessageType.Server_GetPing 1

abbrev pong : Message MessageType
pong = push 9 (little_endian 3) ping

pings : on_message current bytes world ping state ≡ done (some pong, state)
unfolding on_message m_process handle validate push finalize msg_to_json crc generate_crc_table
    generate byte_checksum crc_byte
pings = refl

on_message-IsProcessed_example : IsProcessed current bytes world (λ j. refl) (λ t. refl) pong
on_message-IsProcessed_example =
    on_message-IsProcessed current bytes world (λ j. refl) (λ t. refl) ping pong state state pings

abbrev merge_request : Message MessageType
merge_request = with_bool 3 MessageType.Merge_Collection 1

merge_fails : on_message current bytes world merge_request state ≡ done (none, state)
unfolding on_message m_process handle validate push finalize msg_to_json crc generate_crc_table
    generate byte_checksum crc_byte merge_collection current merge_cache exists find_first
merge_fails = refl

on_message-Silent_example : Same current bytes world state state
on_message-Silent_example =
    on_message-Silent current bytes world state merge_request state merge_fails

abbrev wall : Wall
wall = record { wallpaper = "b.png"; path = "/photos"; index = 1; collection = "sea" }

abbrev remember : Wall → State CacheLib → State CacheLib
remember w s = record s { m_previous = s.m_previous ++ w ∷ [] }

next_wall : get_next_wallpaper current (0 ∷ 1 ∷ []) state ≡ done (wall, remember wall state)
unfolding get_next_wallpaper chosen current pick find_first PathTable.get PathTable.exists
    contains_first
next_wall = refl

marks : mark_favorate current (remember wall state) ≡ done (remember wall state)
unfolding mark_favorate current find_first
marks = refl
