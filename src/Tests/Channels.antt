-- ===== src/Tests/Channels.antt =====
-- The logger, the sockets' messages, the server's sockets and the reading loop at small inputs.
use trading_ecosystem.Prelude.Int.{pos}
use trading_ecosystem.Common.LfQueue.{LfQueue}
use trading_ecosystem.Common.LfQueue.Fifo.{IsValid, unread}
use trading_ecosystem.Common.LfQueue.Drain.{drain, run_all, drain-run_all}
use trading_ecosystem.Common.Logger.{LogElement, integer, char, Value, element, log, flush_queue}
use trading_ecosystem.Common.Logger.Format.{tokens, fill, logged, log-fill}
use trading_ecosystem.Common.Logger.Flush.{printed, flush_queue-log}
use trading_ecosystem.Prelude.{
  ℕ, ◌+◌, ◌<◌, ◌≡◌, refl, true, false, some, List, [], ◌∷◌, ◌++◌, arith, ltb, if◌then◌else◌, length,
  assertion, Outcome, ok, failed, ◌>>=◌,
}
use trading_ecosystem.Common.TcpServer.{TcpServer, PollEvent, Connection}
use trading_ecosystem.Common.TcpServer.Laws as Server
use trading_ecosystem.Common.TcpSocket.{frames}
use trading_ecosystem.Common.TcpSocket.Frames.{concat, frames_of_reads, frames_of_reads-sent}

-- A ring of three slots around which the queue has gone; two messages are unread.
abbrev numbers : LfQueue ℕ
numbers = record {
  size = 3;
  store = λ i. 10 + i;
  next_write_index = 1;
  next_read_index = 2;
  num_elements = 2;
}

-- A body that adds up what it reads, and stops at a thousand.
abbrev add_up : ℕ → ℕ → Outcome ℕ
add_up x sum = if ltb (sum + x) 1000 then ok (sum + x) else failed assertion

drain-run_all_example :
    (q' : LfQueue ℕ) × IsValid q'
    × (unread q' ≡ [])
    × ((s : ℕ) → drain add_up 3 numbers s ≡ (run_all add_up (12 ∷ 10 ∷ []) s >>= λ s'. ok (q', s')))
drain-run_all_example =
    drain-run_all add_up numbers
      (record { read_in = omega arith; fits = omega arith; write_at = refl })

added : run_all add_up (12 ∷ 10 ∷ []) 5 ≡ ok 27
unfolding run_all
added = refl

-- Elements without floating-point numbers
abbrev log_queue : LfQueue (LogElement ℕ ℕ)
log_queue = record {
  size = 16;
  store = λ _. char 0;
  next_write_index = 0;
  next_read_index = 0;
  num_elements = 0;
}

-- `a%:100%%` with the number 7
abbrev format : List ℕ
format = 97 ∷ 37 ∷ 58 ∷ 37 ∷ 37 ∷ []

abbrev arguments : List (Value (LogElement ℕ ℕ))
arguments = element (integer (pos 7)) ∷ []

filled : fill (tokens format) arguments ≡ some (char 97 ∷ integer (pos 7) ∷ char 58 ∷ char 37 ∷ [])
unfolding fill tokens
filled = refl

log-fill_example :
    log format arguments log_queue ≡ logged (fill (tokens format) arguments) log_queue
log-fill_example = log-fill format arguments log_queue

abbrev show : LogElement ℕ ℕ → List ℕ
show e = 48 ∷ []

flush_queue-log_example :
    (q1 : LfQueue (LogElement ℕ ℕ)) × (q2 : LfQueue (LogElement ℕ ℕ)) × (log format arguments
        log_queue
      ≡ ok q1)
    × (flush_queue show 5 q1 []
        ≡ ok (q2, printed show (char 97 ∷ integer (pos 7) ∷ char 58 ∷ char 37 ∷ [])))
    × IsValid q2
    × (unread q2 ≡ [])
flush_queue-log_example =
    flush_queue-log show format arguments (char 97 ∷ integer (pos 7) ∷ char 58 ∷ char 37 ∷ [])
      log_queue [] (record { read_in = omega arith; fits = omega arith; write_at = refl }) refl
      filled (omega arith)

abbrev messages : List (List ℕ)
messages = (1 ∷ 2 ∷ []) ∷ (3 ∷ 4 ∷ []) ∷ []

abbrev reads : List (List ℕ)
reads = (1 ∷ []) ∷ (2 ∷ 3 ∷ []) ∷ []

taken : frames_of_reads 2 [] reads ≡ ((1 ∷ 2 ∷ []) ∷ [], 3 ∷ [])
unfolding frames_of_reads frames
taken = refl

frames_of_reads-sent_example :
    (later : List (List ℕ)) × (messages ≡ (frames_of_reads 2 [] reads).0 ++ later)
    × (concat later ≡ (frames_of_reads 2 [] reads).1 ++ 4 ∷ [])
    × (length (frames_of_reads 2 [] reads).1 < 2)
frames_of_reads-sent_example =
    frames_of_reads-sent 2 (omega arith) messages reads (4 ∷ []) (refl, (refl, tt)) refl

-- A server with one client, socket 1; socket 0 is the listener.
abbrev server : TcpServer
server = record {
  listener_socket = 0;
  receive_sockets = 1 ∷ [];
  send_sockets = [];
  sockets = λ i. record { outbound_data = []; inbound_data = [] };
  next_socket = 2;
}

abbrev events : List PollEvent
events =
    record { socket = 0; is_in = true; is_out = false; is_error = false }
    ∷ record { socket = 1; is_in = true; is_out = true; is_error = false }
    ∷ []

abbrev connections : List Connection
connections = record { is_configured = true; is_registered = true } ∷ []
