-- ===== src/Queue/Transactions.antt =====
-- The table of transactions: closures run at most once, responses are handed over once, fresh ids.
use psychic_fiesta.Prelude.{ℕ, zero, suc, ◌<◌, true, false, Option, none, some, List, [], ◌∷◌, ◌++◌}
use psychic_fiesta.Prelude.{◌≡◌, ◌≢◌, refl, ap, ◌∙◌, arith, Option-cases, inl, inr}
use psychic_fiesta.Prelude.Outcome.{done}
use psychic_fiesta.Packet.{P2pPacket, request, response}
use psychic_fiesta.Packet.Response.{P2pResponse}
use psychic_fiesta.Queue.{Closure, Entry, Net, transaction_of, push_outgoing_queue, run}
use psychic_fiesta.Queue.{
  set_response, check_transaction_id, check_for_response, new_transaction_id,
}
use psychic_fiesta.Queue.{get, remove, is_some}
use psychic_fiesta.Queue.Waiting.{seen}
use psychic_fiesta.Queue.Table.{get-remove, get-remove_ne, get-insert, get-insert_ne}

-- Several calls for one transaction.
abbrev pub answer_all : ℕ → List (Option P2pPacket) → Net → Net
answer_all id [] n = n
answer_all id (a ∷ answers) n = answer_all id answers (set_response id a n)

set_response_missing :
    (id : ℕ) (a : Option P2pPacket) (n : Net) → get n.table id ≡ none → set_response id a n ≡ n
unfolding set_response
set_response_missing id a n e = rw e refl

answer_all_missing :
    (id : ℕ) (answers : List (Option P2pPacket)) (n : Net)
    → get n.table id ≡ none
    → answer_all id answers n ≡ n
answer_all_missing id [] n e = refl
answer_all_missing id (a ∷ answers) n e =
    rw (set_response_missing id a n e) (answer_all_missing id answers n e)

pub set_response_run :
    (id : ℕ) (r : P2pResponse) (e : Entry) (c : Closure) (n : Net)
    → get n.table id ≡ some e
    → e.closure ≡ some c
    → set_response id (some (response r)) n
      ≡ record n { calls = n.calls ++ ((c, r) ∷ []); table = remove n.table id }
unfolding set_response
set_response_run id r e c n at q = rw at (rw q refl)

-- A transaction that waits with a closure: the first response runs the closure on it, once; the
-- answers after it, whatever they are, run nothing more, and the transaction is over.
pub answer_all_once :
    (id : ℕ) (r : P2pResponse) (answers : List (Option P2pPacket)) (e : Entry) (c : Closure)
    (n : Net)
    → get n.table id ≡ some e
    → e.closure ≡ some c
    → ((answer_all id (some (response r) ∷ answers) n).calls ≡ n.calls ++ ((c, r) ∷ []))
      × (check_transaction_id id (answer_all id (some (response r) ∷ answers) n) ≡ false)
unfolding check_transaction_id
answer_all_once id r answers e c n at q =
    let over = get-remove n.table id in
    let ended = record n { calls = n.calls ++ ((c, r) ∷ []); table = remove n.table id } in
    let whole =
      ap (answer_all id answers) (set_response_run id r e c n at q)
      ∙ answer_all_missing id answers ended over in
    (ap (λ m. m.calls) whole, ap (λ m. is_some (get m.table id)) whole ∙ ap is_some over)

run-table : (c : Closure) (a : Option P2pPacket) (n : Net) → (run c a n).table ≡ n.table
run-table c none n = refl
run-table c (some (request r)) n = refl
run-table c (some (response r)) n = refl

-- Setting the response of one transaction leaves the entries of all others.
pub get-set_response_ne :
    (id other : ℕ) (a : Option P2pPacket) (n : Net)
    → other ≢ id
    → get (set_response id a n).table other ≡ get n.table other
unfolding set_response
get-set_response_ne id other a n ne = elim (Option-cases (get n.table id)) [
  | inl q ↦ rw q refl
  | inr (e, q) ↦ elim (Option-cases e.closure) [
    | inl k ↦ rw q (rw k (get-insert_ne n.table id other _ ne))
    | inr (c, k) ↦ rw q (rw k (rw (run-table c a n) (get-remove_ne n.table id other ne)))
  ]
]

-- A transaction that waits without a closure: the answer set for it is handed over by the next
-- check, whatever other tasks do before the removal, and then the transaction is over.
pub check_for_response-set_response :
    (others : Net → Net) (id : ℕ) (p : P2pPacket) (e : Entry) (n : Net)
    → get n.table id ≡ some e
    → e.closure ≡ none
    → ((check_for_response others id (set_response id (some p) n)).0 ≡ some p)
      × (check_transaction_id id (check_for_response others id (set_response id (some p) n)).1
          ≡ false)
unfolding set_response check_for_response check_transaction_id
check_for_response-set_response others id p e n at q = rw at (
    rw q (
      rw (get-insert n.table id (record { answer = some p; closure = none }))
        (refl, ap is_some (get-remove _ id))))

-- An answer that arrives after the packet was queued and before the table has its entry is lost:
-- the call ends as if nothing had arrived.
pub push_outgoing_queue_race :
    (p : P2pPacket) (closure : Option Closure) (a : Option P2pPacket) (n : Net)
    → get n.table (transaction_of p) ≡ none
    → push_outgoing_queue (set_response (transaction_of p) a) p closure n
      ≡ push_outgoing_queue (λ n'. n') p closure n
unfolding push_outgoing_queue
push_outgoing_queue_race p closure a n e =
    rw
      (set_response_missing (transaction_of p) a
        (record n { outgoing = n.outgoing ++ ((p, transaction_of p) ∷ []) }) e)
      refl

-- Queueing a response under an id makes the table forget the closure of a request that waits under
-- the same id: an answer for it then runs nothing.
pub push_outgoing_queue_forgets :
    (q : P2pResponse) (a : Option P2pPacket) (n : Net)
    → (set_response q.transaction_id a (push_outgoing_queue (λ n'. n') (response q) none n).1).calls
      ≡ n.calls
unfolding push_outgoing_queue set_response
push_outgoing_queue_forgets q a n =
    rw (get-insert n.table q.transaction_id (record { answer = none; closure = none })) refl

-- While other tasks change the table between the tests, the id returned is that of the first draw `k`
-- that no transaction has at its own test, once there are more draws than those before it; the queues
-- are then as they were at that test.
pub new_transaction_id_lem :
    (k fuel : ℕ) (others : ℕ → Net → Net) (draw : ℕ → ℕ) (n : Net)
    → ((j : ℕ) → j < k → check_transaction_id (draw j) (seen j others n) ≡ true)
    → check_transaction_id (draw k) (seen k others n) ≡ false
    → k < fuel
    → new_transaction_id fuel others draw n ≡ done (draw k, seen k others n)
unfolding new_transaction_id
new_transaction_id_lem zero zero others draw n taken free h = absurd (omega arith)
new_transaction_id_lem zero (suc fuel) others draw n taken free h = rw free refl
new_transaction_id_lem (suc k) zero others draw n taken free h = absurd (omega arith)
new_transaction_id_lem (suc k) (suc fuel) others draw n taken free h = rw (taken 0 (omega arith)) (
    new_transaction_id_lem k fuel (λ i. others (suc i)) (λ i. draw (suc i)) (others 0 n)
      (λ j lt. taken (suc j) (omega arith)) free (omega arith))
