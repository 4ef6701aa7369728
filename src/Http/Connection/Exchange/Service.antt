-- ===== src/Http/Connection/Exchange/Service.antt =====
-- A connection serves its requests: the thread over their pieces, against the handler over whole
-- requests.
use lib_abk.Common.{
  suc, ◌+◌, ◌||◌, true, ◌≡◌, refl, sym, ap, ap₂, ◌∙◌, arith, [], ◌∷◌, ◌++◌, List, Bytes, some, ltb,
  length, append_assoc, append-nil, map, pos,
}
use lib_abk.Http.Completeness.{test_request_completeness}
use lib_abk.Http.Completeness.Framing.{test-message}
use lib_abk.Http.Connection.{
  SendAnswer, Sent, send, Connection, Wake, after_sending, after_receiving, RequestHandler,
  connection_thread, new_connection,
}
use lib_abk.Http.Connection.Exchange.{
  read_wake, write_wake, wake_up_complete, thread-step, thread-pieces,
}
use lib_abk.Http.Connection.Exchange.Delivery.{
  Delivers, at_once, in_parts, send-take, Answered, thread-Delivers,
}
use lib_abk.Http.Connection.Exchange.Messages.{
  Message, head_of, text_of, join, IsFramed, all_wakes, Serves, nothing, next, IsFramed-Incomplete,
  holding, receive_all-join,
}

module _ {World : Type 0} (handle : RequestHandler World) (m : Message) (f : IsFramed m) where
  module _ (response out : Bytes) (c : Connection) (w w' : World) (empty : c.request ≡ [])
      (keeps : c.keep_alive ≡ true) (said : c.outgoing ≡ out)
      (handled : handle (text_of m) (length (head_of m) + 4) c.response true w
        ≡ some (response, w')) where
    abbrev last_piece : Bytes
    last_piece = m.first ∷ m.last

    abbrev answered : Connection
    answered = record (after_receiving last_piece (holding (join m.pieces) c)) {
      response = response;
      send_advance = 0;
    }

    whole-request : (c.request ++ join m.pieces) ++ last_piece ≡ text_of m
    whole-request = ap (λ q. (q ++ join m.pieces) ++ last_piece) empty ∙ f.whole

    last_complete :
        test_request_completeness ((c.request ++ join m.pieces) ++ last_piece)
        ≡ pos (suc (length (head_of m) + 3))
    last_complete =
        ap test_request_completeness whole-request
        ∙ test-message m.front m.more (length m.body) f.key_first f.ends f.mark_first f.small m.body
            refl
        ∙ ap pos (omega arith)

    last-handled :
        handle
          ((c.request ++ join m.pieces) ++ last_piece)
          (suc (length (head_of m) + 3))
          c.response
          c.keep_alive
          w
        ≡ some (response, w')
    last-handled =
        ap (λ t. handle t (suc (length (head_of m) + 3)) c.response c.keep_alive w) whole-request
        ∙ ap (λ k. handle (text_of m) k c.response c.keep_alive w) (omega arith)
        ∙ ap (λ k. handle (text_of m) (length (head_of m) + 4) c.response k w) keeps
        ∙ handled

    pub thread-request :
        (r : Sent) (rest : List Wake)
        → send m.answers response 0 ≡ some r
        → connection_thread handle
            (map (λ p. read_wake p []) m.pieces ++ (read_wake last_piece m.answers ∷ rest))
            c
            w
          ≡ connection_thread handle rest (after_sending r answered) w'
    thread-request r rest e =
        thread-pieces handle m.pieces (read_wake last_piece m.answers ∷ rest) c w keeps (
          IsFramed-Incomplete m c.request m.pieces f
            (sym (append_assoc c.request (join m.pieces) last_piece) ∙ whole-request))
        ∙ ap (λ x. connection_thread handle (read_wake last_piece m.answers ∷ rest) x w)
            (receive_all-join m.pieces c)
        ∙ thread-step handle (read_wake last_piece m.answers) rest (holding (join m.pieces) c)
            (after_sending r answered) w w' (ap (λ b. b || ltb 0 c.send_advance) keeps)
            (wake_up_complete handle last_piece response (length (head_of m) + 3) m.answers r
              (holding (join m.pieces) c) w w' last_complete last-handled e)

    thread-message :
        (rest : List Wake) (oss : List (List SendAnswer))
        → Delivers response 0 m.answers oss
        → (c' : Connection) × (connection_thread handle
              (map (λ p. read_wake p []) m.pieces
                ++ (read_wake last_piece m.answers ∷ (map write_wake oss ++ rest)))
              c
              w
            ≡ connection_thread handle rest c' w')
          × Answered c' response (out ++ response)
    thread-message rest _ (at_once e) = (
      _,
      thread-request
          (record { success = true; advance = 0; bytes = response; counted = length response }) rest
          e,
      record {
        request = refl;
        response = refl;
        advance = refl;
        keeps = keeps;
        outgoing = ap (λ o. o ++ response) said;
      },
    )
    thread-message rest _ (in_parts {next} {oss} r e t l d) =
        let (c', g, a) =
          thread-Delivers handle response out next oss rest (after_sending r answered) w' refl
            (kept r t) l (ap₂ (λ o b. o ++ b) said (send-take m.answers response 0 r e t l)) d in
        (c', thread-request r (map write_wake (next ∷ oss) ++ rest) e ∙ g, a)
      where
        kept : (r : Sent) → r.success ≡ true → (after_sending r answered).keep_alive ≡ true
        kept r t = rw t keeps

module _ {World : Type 0} (handle : RequestHandler World) where
  thread-Answered :
      (ms : List Message) (c : Connection) (old before out : Bytes) (w w' : World)
      → Answered c old before
      → Serves handle ms old w out w'
      → (c' : Connection) × (connection_thread handle (all_wakes ms) c w ≡ some (c', w'))
        × (c'.outgoing ≡ before ++ out)
        × (c'.send_advance ≡ 0)
  unfolding connection_thread
  thread-Answered _ c old before _ w w' a nothing =
      (c, refl, a.outgoing ∙ sym (append-nil before), a.advance)
  thread-Answered _ c old before _ w _ a (next {m} {ms} {response} {out} {w'} {w''} f h d s) =
      let known = ap (λ o. handle (text_of m) (length (head_of m) + 4) o true w) a.response ∙ h in
      let (c', e, a') =
        thread-message handle m f response before c w w' a.request a.keeps a.outgoing known
          (all_wakes ms) m.deferred d in
      let (c'', e', o, z) = thread-Answered ms c' response (before ++ response) out w' w'' a' s in
      (
        c'',
        ap (λ l. connection_thread handle l c w)
              (append_assoc (map (λ p. read_wake p []) m.pieces)
                (read_wake (m.first ∷ m.last) m.answers ∷ map write_wake m.deferred) (all_wakes ms))
            ∙ e
            ∙ e',
        o ∙ append_assoc before response out,
        z,
      )

  -- Requests that tell the length of their data come over a new connection, each of them in any
  -- pieces and once the response before it is sent; each response is sent at once or in parts, of
  -- which the first goes out at once and the others as the client makes room, and the handler takes each whole request. Then the thread passes each
  -- request to the handler whole and once, and sends the responses one behind the other, each byte
  -- of them once, and waits for the next request.
  pub connection_thread-Serves :
      (ms : List Message) (w w' : World) (out : Bytes)
      → Serves handle ms [] w out w'
      → (c : Connection) × (connection_thread handle (all_wakes ms) new_connection w ≡ some (c, w'))
        × (c.outgoing ≡ out)
        × (c.send_advance ≡ 0)
  connection_thread-Serves ms w w' out s =
      thread-Answered ms new_connection [] [] out w w'
        (record { request = refl; response = refl; advance = refl; keeps = refl; outgoing = refl })
        s
