-- ===== src/Tests/Connections.antt =====
-- Connections to the HTTP server, at concrete wake-ups.
use lib_abk.Common.{ℕ, ◌+◌, true, ◌≡◌, refl, [], ◌∷◌, ◌++◌, some, codes, arith, as_int, map}
use lib_abk.Http.Connection.{
  sent, would_block, send, Connection, RequestHandler, new_connection, connection_thread,
}
use lib_abk.Http.Connection.Exchange.{read_wake, write_wake}
use lib_abk.Http.Connection.Exchange.Stalled.{connection_thread-Stalls}
use lib_abk.Http.Connection.Exchange.Delivery.{Delivers, at_once, in_parts}
use lib_abk.Http.Connection.Exchange.Messages.{Message, IsFramed, all_wakes, nothing, next}
use lib_abk.Http.Connection.Exchange.Service.{connection_thread-Serves}
use lib_abk.Http.Connection.Counting.{CountsSent, connection_thread-CountsSent}

-- A handler that counts the requests and answers each by `yes`.
abbrev counting : RequestHandler ℕ
counting request start old keep w = some (codes "yes", w + 1)

-- A request that comes in two pieces, and is answered in two parts.
abbrev split_message : Message
split_message = record {
  front = codes "P / 1" ++ (b'\r' ∷ b'\n' ∷ []);
  more = [];
  body = codes "ok";
  pieces = (codes "P / 1" ++ (b'\r' ∷ b'\n' ∷ codes "Content-")) ∷ [];
  first = b'L';
  last = codes "ength: 2" ++ (b'\r' ∷ b'\n' ∷ b'\r' ∷ b'\n' ∷ codes "ok");
  answers = sent 2 ∷ would_block ∷ [];
  deferred = (sent 1 ∷ []) ∷ [];
}

split_message-IsFramed : IsFramed split_message
split_message-IsFramed = record {
  key_first = refl;
  ends = refl;
  mark_first = refl;
  small = omega arith;
  whole = refl;
}

answered_in_parts : Delivers (codes "yes") 0 split_message.answers split_message.deferred
unfolding send
answered_in_parts =
    in_parts (record { success = true; advance = 2; bytes = codes "ye"; counted = 2 }) refl refl
      (omega arith) (at_once refl)

connection_thread-Serves_example :
    (c : Connection) × (connection_thread counting
        (all_wakes (split_message ∷ split_message ∷ []))
        new_connection
        0
      ≡ some (c, 2))
    × (c.outgoing ≡ codes "yesyes")
    × (c.send_advance ≡ 0)
connection_thread-Serves_example =
    connection_thread-Serves counting (split_message ∷ split_message ∷ []) 0 2 (codes "yesyes") (
      next split_message-IsFramed refl answered_in_parts
        (next split_message-IsFramed refl answered_in_parts nothing))

-- The connection after one of these requests.
abbrev after_one : Connection
after_one = record {
  request = [];
  response = codes "yes";
  send_advance = 0;
  keep_alive = true;
  total_recv = 30;
  total_sent = 3;
  outgoing = codes "yes";
}

one_served :
    connection_thread counting (all_wakes (split_message ∷ [])) new_connection 0
    ≡ some (after_one, 1)
unfolding connection_thread as_int
one_served = refl

connection_thread-CountsSent_example : CountsSent after_one
connection_thread-CountsSent_example =
    connection_thread-CountsSent counting (all_wakes (split_message ∷ [])) new_connection after_one
      0 1 refl one_served

-- The same request, when there is no room for a byte of the response, and room comes twice.
abbrev no_room : Message
no_room = record split_message { answers = would_block ∷ [] }

connection_thread-Stalls_example :
    (c : Connection) × (connection_thread counting
        (map (λ p. read_wake p []) no_room.pieces
          ++ (read_wake (no_room.first ∷ no_room.last) no_room.answers
              ∷ map write_wake ((sent 3 ∷ []) ∷ (sent 3 ∷ []) ∷ [])))
        new_connection
        0
      ≡ some (c, 1))
    × (c.response ≡ codes "yes")
    × (c.outgoing ≡ [])
    × (c.send_advance ≡ 0)
connection_thread-Stalls_example =
    connection_thread-Stalls counting no_room (codes "yes") [] ((sent 3 ∷ []) ∷ (sent 3 ∷ []) ∷ [])
      0 1
      (record {
        key_first = refl;
        ends = refl;
        mark_first = refl;
        small = omega arith;
        whole = refl;
      })
      refl refl
