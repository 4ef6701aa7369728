-- ===== src/Http/Connection/Exchange/Messages.antt =====
-- Requests of which each arrives in any pieces, one behind the response to the other.
use lib_abk.Common.{
  ℕ, ◌+◌, ◌<◌, true, ◌≡◌, refl, sym, ap, ap₂, ◌∙◌, arith, [], ◌∷◌, ◌++◌, List, Bytes, some, length,
  append_assoc, map, length-append, append-nil,
}
use lib_abk.Http.Text.{find, find_substring_ci}
use lib_abk.Http.Numbers.{EndsNumber}
use lib_abk.Http.Completeness.{end_mark, content_key}
use lib_abk.Http.Completeness.Framing.{headers, test-part}
use lib_abk.Http.Connection.{SendAnswer, Connection, Wake, after_receiving, RequestHandler}
use lib_abk.Http.Connection.Exchange.{read_wake, write_wake, Incomplete, receive_all}
use lib_abk.Http.Connection.Exchange.Delivery.{Delivers}

-- A request with the pieces in which it arrives, the last of which has a first byte, and what the
-- sendings of its response are answered: the first one, and those that continue it.
pub record Message : Type 0 where
  pub front : Bytes
  pub more : Bytes
  pub body : Bytes
  pub pieces : List Bytes
  pub first : ℕ
  pub last : Bytes
  pub answers : List SendAnswer
  pub deferred : List (List SendAnswer)

abbrev pub head_of : Message → Bytes
head_of m = headers m.front (length m.body) m.more

abbrev pub text_of : Message → Bytes
text_of m = head_of m ++ (end_mark ++ m.body)

abbrev pub join : List Bytes → Bytes
join [] = []
join (p ∷ ps) = p ++ join ps

-- The headers hold the length of the body first and the mark at their end only, the request is
-- smaller than 2 GB, and the pieces make it up.
pub record IsFramed (m : Message) : Type 0 where
  pub key_first : find_substring_ci (m.front ++ content_key) content_key ≡ some (length m.front)
  pub ends : EndsNumber (m.more ++ end_mark)
  pub mark_first : find end_mark (head_of m ++ end_mark) ≡ some (length (head_of m))
  pub small : length (head_of m) + 4 + length m.body < 2147483648
  pub whole : join m.pieces ++ (m.first ∷ m.last) ≡ text_of m

abbrev pub wakes_of : Message → List Wake
wakes_of m =
    map (λ p. read_wake p []) m.pieces
    ++ (read_wake (m.first ∷ m.last) m.answers ∷ map write_wake m.deferred)

abbrev pub all_wakes : List Message → List Wake
all_wakes [] = []
all_wakes (m ∷ ms) = wakes_of m ++ all_wakes ms

-- What a handler does with one request after the other, with all their responses.
pub data Serves {World : Type 0} (handle : RequestHandler World)
    : List Message → Bytes → World → Bytes → World → Type 0 where
  nothing : {old : Bytes} {w : World} → Serves handle [] old w [] w
  next :
      {m : Message} {ms : List Message} {old response out : Bytes} {w w' w'' : World}
      → IsFramed m
      → handle (text_of m) (length (head_of m) + 4) old true w ≡ some (response, w')
      → Delivers response 0 m.answers m.deferred
      → Serves handle ms response w' out w''
      → Serves handle (m ∷ ms) old w (response ++ out) w''

non_empty : (s : Bytes) (x : ℕ) (t : Bytes) → (c : ℕ) × (q : Bytes) × (s ++ (x ∷ t) ≡ c ∷ q)
non_empty [] x t = (x, t, refl)
non_empty (c ∷ s) x t = (c, s ++ (x ∷ t), refl)

pub IsFramed-Incomplete :
    (m : Message) (q : Bytes) (ps : List Bytes)
    → IsFramed m
    → q ++ (join ps ++ (m.first ∷ m.last)) ≡ text_of m
    → Incomplete q ps
IsFramed-Incomplete m q [] f e = tt
IsFramed-Incomplete m q (p ∷ ps) f e =
    let (c, t, g) = non_empty (join ps) m.first m.last in
    let later : (q ++ p) ++ (join ps ++ (m.first ∷ m.last)) ≡ text_of m =
      append_assoc q p (join ps ++ (m.first ∷ m.last))
      ∙ ap (λ s. q ++ s) (sym (append_assoc p (join ps) (m.first ∷ m.last)))
      ∙ e in
    (
      test-part m.front m.more (length m.body) f.key_first f.ends f.mark_first f.small m.body
          (q ++ p) c t refl (ap (λ s. (q ++ p) ++ s) (sym g) ∙ later),
      IsFramed-Incomplete m (q ++ p) ps f later,
    )

-- The connection after some pieces.
abbrev pub holding : Bytes → Connection → Connection
holding b c = record c { request = c.request ++ b; total_recv = c.total_recv + length b }

pub receive_all-join : (ps : List Bytes) (c : Connection) → receive_all ps c ≡ holding (join ps) c
receive_all-join [] c = ap₂ with_both (sym (append-nil c.request)) (omega arith)
  where
    with_both : Bytes → ℕ → Connection
    with_both a b = record c { request = a; total_recv = b }
receive_all-join (p ∷ ps) c =
    receive_all-join ps (after_receiving p c)
    ∙ ap₂ with_both (append_assoc c.request p (join ps)) (omega (arith, length-append p (join ps)))
  where
    with_both : Bytes → ℕ → Connection
    with_both a b = record c { request = a; total_recv = b }
