-- ===== src/Http/Connection.antt =====
-- The life of one connection in HttpServerLib/HttpServer.cpp: `Send` and the loop of
-- `ConnectionThread`. What the sockets and events of the system answer is an argument: a wake-up of
-- the thread says what has happened, and brings what the calls of `WSASend` will answer. What was
-- sent to the client is kept beside the state of the code.
pub mod Sending
pub mod Exchange
pub mod Counting
use lib_abk.Common.{
  ℕ, zero, suc, ◌+◌, leb, Bool, true, false, ◌||◌, [], ◌∷◌, ◌++◌, ltb, List, Bytes, Option, none,
  some, if◌then◌else◌, ℤ, pos, negsuc, length, take,
}
use lib_abk.Http.Text.{drop}
use lib_abk.Http.Completeness.{test_request_completeness}

-- What one call of `WSASend` answers: how many bytes were taken, `WSAEWOULDBLOCK`, or an error.
pub data SendAnswer : Type 0 where
  sent : ℕ → SendAnswer
  would_block failed : SendAnswer

-- How `Send` ends: whether it succeeded, where the next one starts, what it has sent, and what its
-- calls of `IncTxCount` add up to.
pub record Sent : Type 0 where
  pub success : Bool
  pub advance : ℕ
  pub bytes : Bytes
  pub counted : ℕ

-- What one successful call of `WSASend` adds: its bytes, and `IncTxCount` of the number that it gave.
abbrev sent_more : Bytes → ℕ → Option Sent → Option Sent
sent_more front n none = none
sent_more front n (some r) = some (record r { bytes = front ++ r.bytes; counted = n + r.counted })

-- The size of the buffer that one call of `WSASend` is given.
abbrev pub offered : Bytes → ℕ
offered s = if ltb 16384 (length s) then 16384 else length s

-- The loop of `Send` over what remains; none where the outcomes end before the call does, or where
-- `WSASend` takes more than it was given.
abbrev pub send_loop : List SendAnswer → Bytes → ℕ → Option Sent
send_loop os [] at = some (record { success = true; advance = 0; bytes = []; counted = 0 })
send_loop [] (c ∷ s) at = none
send_loop (sent n ∷ os) (c ∷ s) at =
    let rest = send_loop os (drop n (c ∷ s)) (at + n) in
    if leb n (offered (c ∷ s)) then sent_more (take n (c ∷ s)) n rest else none
send_loop (would_block ∷ os) (c ∷ s) at =
    some (record { success = true; advance = at; bytes = []; counted = 0 })
send_loop (failed ∷ os) (c ∷ s) at =
    some (record { success = false; advance = 0; bytes = []; counted = 0 })

-- `Send`.
unfoldable pub send : List SendAnswer → Bytes → ℕ → Option Sent
send os response at = send_loop os (drop at response) at

-- The variables of `ConnectionThread`, the two counters of `STATISTICS`, and what went out.
pub record Connection : Type 0 where
  pub request : Bytes
  pub response : Bytes
  pub send_advance : ℕ
  pub keep_alive : Bool
  pub total_recv : ℕ
  pub total_sent : ℕ
  pub outgoing : Bytes

-- What `WSARecv` gives, with the answers to the sending that may follow.
pub data Reading : Type 0 where
  received : Bytes → List SendAnswer → Reading
  read_failed : Reading

-- A wake-up of the thread. The network events are what was read if there is something to read, the
-- answers to a deferred sending if there is room to write, and whether the client has closed.
pub data Wake : Type 0 where
  wait_failed shutdown timed_out enum_failed : Wake
  network : Option Reading → Option (List SendAnswer) → Bool → Wake

-- The connection after a sending.
abbrev pub after_sending : Sent → Connection → Connection
after_sending r c = record c {
  request = [];
  send_advance = r.advance;
  keep_alive = if r.success then c.keep_alive else false;
  total_sent = c.total_sent + r.counted;
  outgoing = c.outgoing ++ r.bytes;
}

abbrev pub after_receiving : Bytes → Connection → Connection
after_receiving b c = record c { request = c.request ++ b; total_recv = c.total_recv + length b }

abbrev pub continue_sending : List SendAnswer → Connection → Option Connection
continue_sending os c = elim (send os c.response c.send_advance) [
  | none ↦ none
  | some r ↦ some (after_sending r c)
]

-- Handling of a complete request whose data starts at a position: `ParseAndHandleRequest` with the
-- request, the position, the old response and the keep-alive state.
abbrev pub RequestHandler : Type 0 → Type 0
RequestHandler World = Bytes → ℕ → Bytes → Bool → World → Option (Bytes × World)

module _ {World : Type 0} (handle : RequestHandler World) where
  abbrev pub handle_complete :
      ℤ → List SendAnswer → Connection → World → Option (Connection × World)
  handle_complete (pos (suc start)) os c w =
      elim (handle c.request (suc start) c.response c.keep_alive w) [
        | none ↦ none
        | some (response, w') ↦
            elim (continue_sending os (record c { response = response; send_advance = 0 })) [
              | none ↦ none
              | some c' ↦ some (c', w')
            ]
      ]
  handle_complete (pos zero) os c w = some (c, w)
  handle_complete (negsuc n) os c w = some (c, w)

  -- The READ event.
  unfoldable pub on_read : Option Reading → Connection → World → Option (Connection × World)
  unfolding test_request_completeness send
  on_read none c w = some (c, w)
  on_read (some read_failed) c w = some (c, w)
  on_read (some (received b os)) c w =
      let c' : Connection = after_receiving b c in
      handle_complete (test_request_completeness c'.request) os c' w

  -- The WRITE event.
  unfoldable pub on_write : Option (List SendAnswer) → Connection → Option Connection
  unfolding send
  on_write none c = some c
  on_write (some os) c = if ltb 0 c.send_advance then continue_sending os c else some c

  -- One turn of the loop, with whether the loop goes on.
  unfoldable pub wake_up : Wake → Connection → World → Option (Bool × (Connection × World))
  unfolding on_read on_write
  wake_up (network reading writing closed) c w = elim (on_read reading c w) [
    | none ↦ none
    | some (c', w') ↦ elim (on_write writing c') [
      | none ↦ none
      | some c'' ↦ some (if closed then false else true, (c'', w'))
    ]
  ]
  wake_up enum_failed c w = some (true, (c, w))
  wake_up wait_failed c w = some (false, (c, w))
  wake_up shutdown c w = some (false, (c, w))
  wake_up timed_out c w = some (false, (c, w))

  -- The loop over any wake-ups; it stops waiting when it has ended.
  unfoldable pub connection_thread : List Wake → Connection → World → Option (Connection × World)
  unfolding wake_up
  connection_thread [] c w = some (c, w)
  connection_thread (wake ∷ wakes) c w = elim (c.keep_alive || ltb 0 c.send_advance) [
    | false ↦ some (c, w)
    | true ↦ elim (wake_up wake c w) [
      | none ↦ none
      | some (false, after) ↦ some after
      | some (true, (c', w')) ↦ connection_thread wakes c' w'
    ]
  ]

-- A connection when its thread starts.
abbrev pub new_connection : Connection
new_connection = record {
  request = [];
  response = [];
  send_advance = 0;
  keep_alive = true;
  total_recv = 0;
  total_sent = 0;
  outgoing = [];
}
