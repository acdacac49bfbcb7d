-- ===== src/Net/Tests.antt =====
-- The theorems on src/change_lib/net at two messages and a connection that sends one.
use wallchanger.Base.{
  false, ℕ, Bool, ◌==◌, true, ◌≡◌, ◌≢◌, refl, List, [], ◌∷◌, ◌++◌, map, Option, none, some, done,
  ◌%◌, ◌^◌, length, nat_ordered, arith,
}
use wallchanger.Crc.{crc, generate_crc_table, generate, byte_checksum, crc_byte}
use wallchanger.Net.Message.{Message, push, pull, validate, pull-push}
use wallchanger.Net.Connection.{
  Connection, close, disconnect, Frame, head, payload, OwnedMessage, server, idle, header, body,
  send_message, run_posted, on_header_written, on_body_written, enqueue, write_header,
}
use wallchanger.Net.Writer.{frames}
use wallchanger.Net.Steps.{
  calls_send, runs_posted, wrote_header, wrote_body, Reaches, here, then_step,
}
use wallchanger.Net.Reached.{Reaches-returns, write_handler}
use wallchanger.Net.Unfinished.{Last, Reaches-sent}
use wallchanger.Net.Drain.{drain, Reaches-drain}
use wallchanger.Net.Reader.{delivered}
use wallchanger.Net.Types.{Client_Accepted, Status_Success, MessageType, Server_GetPing}
use wallchanger.Net.Client.{run, run-append, process_one, answer, ignored, success}
use wallchanger.Net.Server.{Server}

abbrev empty : Message MessageType
empty = record { header = record { id = Server_GetPing; size = 0; hash = 0 }; time = 0; body = [] }

abbrev ping : Message MessageType
ping = record {
  header = record { id = Server_GetPing; size = 1; hash = 0xA505DF1B };
  time = 5;
  body = 1 ∷ [];
}

abbrev two_bytes : List ℕ
two_bytes = 8 ∷ 9 ∷ []

pull-push_example :
    pull (length two_bytes) (push 6 two_bytes ping)
    ≡ done (
      some two_bytes,
      record ping {
        header = record ping.header {
          size = length ping.body % 2 ^ 32;
          hash = crc (ping.body ++ two_bytes);
        };
        time = 6;
      },
    )
pull-push_example = pull-push 6 two_bytes ping

abbrev popped : Message MessageType
popped = record ping {
  header = record ping.header {
    size = length ping.body % 2 ^ 32;
    hash = crc (ping.body ++ two_bytes);
  };
  time = 6;
}

checksums_differ : crc (1 ∷ []) ≢ crc (1 ∷ two_bytes)
unfolding crc generate_crc_table generate byte_checksum crc_byte
checksums_differ h = omega arith

-- A connection of the server, from the first message to the queue worked off.
abbrev start : Connection MessageType
start = record {
  self = 3;
  m_open = true;
  m_outbound = [];
  m_incomming = [];
  m_temp_in = empty;
  m_id = 11;
  m_owner = server;
  m_connected = true;
  reading = header;
  writing = idle;
  posted = [];
  sent = [];
  unfinished = [];
}

abbrev queued : Connection MessageType
queued = record start { m_outbound = ping ∷ []; writing = header }

abbrev half : Connection MessageType
half = record queued { writing = body; sent = head ping.header ∷ [] }

abbrev finished : Connection MessageType
finished = record start { sent = head ping.header ∷ payload (1 ∷ []) ∷ [] }

to_queued : Reaches start (ping ∷ []) queued
unfolding send_message run_posted enqueue write_header
to_queued =
    then_step start (send_message ping start) queued [] (ping ∷ [])
      (then_step start start (send_message ping start) [] [] (here start) (calls_send start ping))
      (runs_posted (send_message ping start) queued refl)

to_half : Reaches start (ping ∷ []) half
unfolding on_header_written
to_half =
    then_step start queued half (ping ∷ []) [] to_queued (wrote_header queued half true refl refl)

-- The write of the body fails.
abbrev cut : Connection MessageType
cut = record half {
  writing = idle;
  unfinished = payload (1 ∷ []) ∷ [];
  m_connected = false;
  posted = close ∷ [];
}

to_cut : Reaches start (ping ∷ []) cut
unfolding on_body_written disconnect
to_cut = then_step start half cut (ping ∷ []) [] to_half (wrote_body half cut false refl refl)

Reaches-sent_example :
    ((rest : List (Frame MessageType)) × (cut.sent ++ cut.unfinished ++ rest ≡ frames (ping ∷ [])))
    × Last cut
Reaches-sent_example = Reaches-sent (ping ∷ []) start cut to_cut (refl, refl, refl, refl)

half_busy : half.writing ≢ idle
half_busy h = cc

Reaches-returns_example :
    ((c' : Connection MessageType) × (write_handler half.writing true half ≡ done c'))
    × ((c' : Connection MessageType) × (run_posted half ≡ done c'))
Reaches-returns_example =
    Reaches-returns (ping ∷ []) start half true to_half (refl, refl, refl, refl)

Reaches-drain_example :
    drain (length (frames half.m_outbound)) half
    ≡ done (record half { writing = idle; m_outbound = []; sent = frames (ping ∷ []) })
Reaches-drain_example =
    Reaches-drain (ping ∷ []) start half to_half (refl, refl, refl, refl) half_busy

-- A message without a body after one with a body is delivered with that body.
delivered_test :
    map (λ (m : Message MessageType). m.body) (delivered 0 [] (ping ∷ empty ∷ []))
    ≡ (1 ∷ []) ∷ (1 ∷ []) ∷ []
delivered_test = refl

-- JSON values that are byte lists, as they are.
abbrev odd_ids : ℕ → Bool
odd_ids i = i % 2 == 1

abbrev serving : Server MessageType
serving = record { m_connections = some 1 ∷ some 2 ∷ none ∷ some 3 ∷ []; effects = [] }

-- A server that notes who sent.
abbrev notes : Option ℕ → Message MessageType → List (Option ℕ) → List (Option ℕ)
notes remote msg l = remote ∷ l

abbrev waiting : List (OwnedMessage MessageType)
waiting = record { remote = some 1; msg = ping } ∷ record { remote = some 3; msg = empty } ∷ []

-- A message of a type without an answer, and one that the client processes.
abbrev nothing_to_do : OwnedMessage MessageType
nothing_to_do = record {
  remote = none;
  msg = record empty { header = record { id = Client_Accepted; size = 0; hash = 0 } };
}

abbrev good_news : OwnedMessage MessageType
good_news = record {
  remote = none;
  msg = record empty { header = record { id = Status_Success; size = 0; hash = 0 } };
}

passes : process_one {Json = ℕ} (λ b. none) nothing_to_do.msg ≡ done (false, ignored)
unfolding process_one answer validate crc generate_crc_table generate byte_checksum
passes = refl

processed : process_one {Json = ℕ} (λ b. none) good_news.msg ≡ done (true, success)
unfolding process_one answer validate crc generate_crc_table generate byte_checksum
processed = refl

run-append_example :
    run {Json = ℕ} (λ b. none) ((nothing_to_do ∷ []) ++ good_news ∷ waiting)
    ≡ done (waiting, (ignored ∷ []) ++ success ∷ [])
run-append_example =
    run-append (λ b. none) (nothing_to_do ∷ []) waiting (ignored ∷ []) good_news success
      (passes, tt) processed
