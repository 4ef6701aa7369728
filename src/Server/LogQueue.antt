-- ===== src/Server/LogQueue.antt =====
-- Common/LogQueue: the log of the server, which its owner pops. The message of an entry is the
-- text that the format string and its arguments stand for; `vsnprintf` cuts it, as on systems other
-- than Windows. The mutex makes each call one step.
use lib_abk.Common.{
  ℕ, ◌-◌, ◌≡◌, sym, ap, ◌∙◌, List, [], ◌∷◌, ◌++◌, Bytes, Option, none, some, take, append_assoc,
  append-nil,
}

pub data Severity : Type 0 where
  info debug trace warning error : Severity

-- `CEntity`.
pub record LogEntity : Type 0 where
  pub message : Bytes
  pub severity : Severity

abbrev pub max_entity_strlen : ℕ
max_entity_strlen = 255

-- `SetV`: `vsnprintf` writes the NUL within the size that it is given.
unfoldable pub log_entity : Severity → Bytes → LogEntity
log_entity s formatted = record { message = take (max_entity_strlen - 1) formatted; severity = s }

-- `AddV`.
unfoldable pub add_log : Severity → Bytes → List LogEntity → List LogEntity
unfolding log_entity
add_log s formatted q = q ++ (log_entity s formatted ∷ [])

-- `Pop`: the entity, if there is one.
unfoldable pub pop_log : List LogEntity → Option LogEntity × List LogEntity
pop_log [] = (none, [])
pop_log (e ∷ q) = (some e, q)

-- The calls of the program's threads, in the order in which they get the mutex.
pub data Call : Type 0 where
  adds : Severity → Bytes → Call
  pops : Call

abbrev append_some : {A : Type 0} → Option A → List A → List A
append_some none xs = xs
append_some (some x) xs = x ∷ xs

-- What the calls pop, and the log that is left.
unfoldable pub run_log : List Call → List LogEntity → List LogEntity × List LogEntity
unfolding add_log pop_log
run_log [] q = ([], q)
run_log (adds s t ∷ cs) q = run_log cs (add_log s t q)
run_log (pops ∷ cs) q =
    let (e, r) = pop_log q in let (out, rest) = run_log cs r in (append_some e out, rest)

-- The entries that the calls add, cut to 254 bytes.
abbrev pub added : List Call → List LogEntity
added [] = []
added (adds s t ∷ cs) = record { message = take 254 t; severity = s } ∷ added cs
added (pops ∷ cs) = added cs

-- Whatever the order of the calls is: the entries that were popped, and then those that are left,
-- are the entries from before and then the added ones, each once and in order, and each message is
-- the first 254 bytes of its text.
pub run_log-added :
    (cs : List Call) (q : List LogEntity) → (run_log cs q).0 ++ (run_log cs q).1 ≡ q ++ added cs
unfolding run_log add_log log_entity pop_log
run_log-added [] q = sym (append-nil q)
run_log-added (adds s t ∷ cs) q =
    run_log-added cs (q ++ (record { message = take 254 t; severity = s } ∷ []))
    ∙ append_assoc q _ (added cs)
run_log-added (pops ∷ cs) [] = run_log-added cs []
run_log-added (pops ∷ cs) (e ∷ q) = ap (λ x. e ∷ x) (run_log-added cs q)
