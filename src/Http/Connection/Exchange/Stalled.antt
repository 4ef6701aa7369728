-- ===== src/Http/Connection/Exchange/Stalled.antt =====
-- A response for which the socket has no room at first.
use lib_abk.Common.{◌+◌, true, ◌≡◌, refl, ◌∙◌, [], ◌∷◌, ◌++◌, List, Bytes, some, length, map}
use lib_abk.Http.Connection.{
  SendAnswer, would_block, Sent, send, Connection, RequestHandler, on_read, on_write, wake_up,
  connection_thread, new_connection,
}
use lib_abk.Http.Connection.Exchange.{read_wake, write_wake, thread-step}
use lib_abk.Http.Connection.Exchange.Messages.{Message, head_of, text_of, IsFramed}
use lib_abk.Http.Connection.Exchange.Service.{thread-request}

-- What `Send` makes of it.
abbrev nothing_sent : Sent
nothing_sent = record { success = true; advance = 0; bytes = []; counted = 0 }

send-would_block :
    (response : Bytes) (os : List SendAnswer)
    → send (would_block ∷ os) response 0 ≡ some nothing_sent
unfolding send
send-would_block [] os = refl
send-would_block (c ∷ s) os = refl

module _ {World : Type 0} (handle : RequestHandler World) where
  ignored :
      (os : List SendAnswer) (c : Connection) (w : World)
      → c.send_advance ≡ 0
      → wake_up handle (write_wake os) c w ≡ some (true, (c, w))
  unfolding wake_up on_read on_write
  ignored os c w z = rw z refl

  -- With an advance of 0, the WRITE event does nothing.
  thread-ignores :
      (oss : List (List SendAnswer)) (c : Connection) (w : World)
      → c.keep_alive ≡ true
      → c.send_advance ≡ 0
      → connection_thread handle (map write_wake oss) c w ≡ some (c, w)
  unfolding connection_thread
  thread-ignores [] c w k z = refl
  thread-ignores (os ∷ oss) c w k z =
      thread-step handle (write_wake os) (map write_wake oss) c c w w (rw k refl) (ignored os c w z)
      ∙ thread-ignores oss c w k z

  -- A request that tells the length of its data comes over a new connection in any pieces, and the
  -- handler takes it; but the first call of `WSASend` would block. Then nothing of the response
  -- goes out, however often the system says afterwards that there is room to write and whatever it
  -- would take: the advance of 0 passes for the end of the sending. The request was handled once.
  pub connection_thread-Stalls :
      (m : Message) (response : Bytes) (os : List SendAnswer) (oss : List (List SendAnswer))
      (w w' : World)
      → IsFramed m
      → handle (text_of m) (length (head_of m) + 4) [] true w ≡ some (response, w')
      → m.answers ≡ would_block ∷ os
      → (c : Connection) × (connection_thread handle
            (map (λ p. read_wake p []) m.pieces
              ++ (read_wake (m.first ∷ m.last) m.answers ∷ map write_wake oss))
            new_connection
            w
          ≡ some (c, w'))
        × (c.response ≡ response)
        × (c.outgoing ≡ [])
        × (c.send_advance ≡ 0)
  connection_thread-Stalls m response os oss w w' f h e = (
    _,
    thread-request handle m f response [] new_connection w w' refl refl refl h nothing_sent
          (map write_wake oss) (rw e (send-would_block response os))
        ∙ thread-ignores oss _ w' refl refl,
    refl,
    refl,
    refl,
  )
