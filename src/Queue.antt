-- ===== src/Queue.antt =====
-- src/net/p2p/queue.rs: the queue of packets to send, the table of transactions and the actions that
-- arrived. The three statics are one record; between two locks of a call other tasks may run, and
-- `others` is what they do to it. A closure is its handle, and `calls` is the log of those run.
pub mod Table
pub mod Outgoing
pub mod Transactions
pub mod Waiting
mod Tests
use psychic_fiesta.Prelude.{ℕ, zero, suc, Bool, true, false, not, Option, none, some, List, [], ◌∷◌}
use psychic_fiesta.Prelude.{◌++◌, length, if◌then◌else◌, ◌==◌}
use psychic_fiesta.Prelude.Outcome.{Outcome, done, stuck}
use psychic_fiesta.Game.{GameAction}
use psychic_fiesta.Packet.{P2pPacket, request, response}
use psychic_fiesta.Packet.Response.{P2pResponse}

-- `Option<Arc<Mutex<dyn FnMut(P2pResponse)>>>`, the `Arc` by its address.
abbrev pub Closure : Type 0
Closure = ℕ

-- What the table holds for a transaction: its response, and what to run on it.
pub record Entry : Type 0 where
  pub answer : Option P2pPacket
  pub closure : Option Closure

-- `HashMap<u16, _>`.
abbrev pub Table : Type 0
Table = List (ℕ × Entry)

unfoldable pub get : Table → ℕ → Option Entry
get [] id = none
get ((k, e) ∷ t) id = if k == id then some e else get t id

unfoldable pub remove : Table → ℕ → Table
remove [] id = []
remove ((k, e) ∷ t) id = if k == id then remove t id else (k, e) ∷ remove t id

unfoldable pub insert : Table → ℕ → Entry → Table
unfolding remove
insert t id e = (id, e) ∷ remove t id

pub record Net : Type 0 where
  pub table : Table
  pub outgoing : List (P2pPacket × ℕ)
  pub incoming : List GameAction
  pub calls : List (Closure × P2pResponse)

abbrev pub initial : Net
initial = record { table = []; outgoing = []; incoming = []; calls = [] }

abbrev pub transaction_of : P2pPacket → ℕ
transaction_of (request r) = r.transaction_id
transaction_of (response r) = r.transaction_id

-- `pop_front`, and what is left.
abbrev pub front {ℓ} : {A : Type ℓ} → List A → Option A × List A
front [] = (none, [])
front (x ∷ xs) = (some x, xs)

-- The queue is locked for the push, and then the table for the insertion.
unfoldable pub push_outgoing_queue : (Net → Net) → P2pPacket → Option Closure → Net → ℕ × Net
unfolding insert
push_outgoing_queue others packet closure n =
    let id = transaction_of packet in
    let n' = others (record n { outgoing = n.outgoing ++ ((packet, id) ∷ []) }) in
    (id, record n' { table = insert n'.table id (record { answer = none; closure = closure }) })

unfoldable pub pop_outgoing_queue : Net → Option (P2pPacket × ℕ) × Net
pop_outgoing_queue n = let (first, rest) = front n.outgoing in (first, record n { outgoing = rest })

abbrev pub get_outgoing_queue_len : Net → ℕ
get_outgoing_queue_len n = length n.outgoing

-- The closure is run on a response, and on nothing else.
abbrev pub run : Closure → Option P2pPacket → Net → Net
run c (some (response r)) n = record n { calls = n.calls ++ ((c, r) ∷ []) }
run c _ n = n

abbrev pub answer_entry : ℕ → Option P2pPacket → Option Entry → Net → Net
answer_entry id answer none n = n
answer_entry id answer (some e) n = elim e.closure [
  | some c ↦ let n' = run c answer n in record n' { table = remove n'.table id }
  | none ↦ record n { table = insert n.table id (record { answer = answer; closure = none }) }
]

unfoldable pub set_response : ℕ → Option P2pPacket → Net → Net
unfolding get insert
set_response id answer n = answer_entry id answer (get n.table id) n

abbrev pub is_some {ℓ} : {A : Type ℓ} → Option A → Bool
is_some none = false
is_some (some _) = true

unfoldable pub check_transaction_id : ℕ → Net → Bool
unfolding get
check_transaction_id id n = is_some (get n.table id)

-- The loop draws from `rand::random`, with at most `fuel` draws; the table is locked anew for the test
-- of each, and `others i` runs before the lock for draw `i`.
unfoldable pub new_transaction_id : ℕ → (ℕ → Net → Net) → (ℕ → ℕ) → Net → Outcome (ℕ × Net)
unfolding check_transaction_id
new_transaction_id zero others draw n = stuck
new_transaction_id (suc fuel) others draw n =
    let seen = others 0 n in
    let rest = new_transaction_id fuel (λ i. others (suc i)) (λ i. draw (suc i)) seen in
    if not (check_transaction_id (draw 0) seen) then done (draw 0, seen) else rest

-- `table.get(..).unwrap_or(&(None, None)).0`.
abbrev pub answer_of : Option Entry → Option P2pPacket
answer_of none = none
answer_of (some e) = e.answer

abbrev pub answer_in : ℕ → Net → Option P2pPacket
answer_in id n = answer_of (get n.table id)

-- The table is locked for the copy, and again for the removal.
unfoldable pub check_for_response : (Net → Net) → ℕ → Net → Option P2pPacket × Net
unfolding get remove
check_for_response others id n =
    let found = answer_in id n in
    if is_some found
    then (found, (let n' = others n in record n' { table = remove n'.table id }))
    else (found, n)

-- One round for each lock of the copy; `others i` runs before it, and `others (i + 1)` before the
-- removal.
unfoldable pub wait_for_response : ℕ → (ℕ → Net → Net) → ℕ → Net → Outcome (P2pPacket × Net)
unfolding get remove
wait_for_response zero others id n = stuck
wait_for_response (suc fuel) others id n =
    let seen = others 0 n in
    let rest = wait_for_response fuel (λ i. others (suc i)) id seen in
    elim (answer_in id seen) [
      | some p ↦ let n' = others 1 seen in done (p, record n' { table = remove n'.table id })
      | none ↦ rest
    ]

abbrev pub get_transaction_table : Net → Table
get_transaction_table n = n.table

unfoldable pub push_incoming_gameaction : GameAction → Net → Net
push_incoming_gameaction action n = record n { incoming = n.incoming ++ (action ∷ []) }

unfoldable pub pop_incoming_gameaction : Net → Option GameAction × Net
pop_incoming_gameaction n =
    let (first, rest) = front n.incoming in (first, record n { incoming = rest })

abbrev pub get_incoming_gameaction_len : Net → ℕ
get_incoming_gameaction_len n = length n.incoming
