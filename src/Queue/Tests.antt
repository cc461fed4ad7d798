-- ===== src/Queue/Tests.antt =====
-- Runs of the queues.
use psychic_fiesta.Prelude.{
  ℕ, zero, suc, true, false, none, some, [], ◌∷◌, ◌++◌, ◌≡◌, refl, arith, ◌+◌, ◌<◌, List,
}
use psychic_fiesta.Prelude.Outcome.{done}
use psychic_fiesta.Packet.{P2pPacket, request, response}
use psychic_fiesta.Packet.Request
use psychic_fiesta.Packet.Response
use psychic_fiesta.Packet.Response.{P2pResponse}
use psychic_fiesta.Queue.{Net, initial, push_outgoing_queue, set_response, check_transaction_id}
use psychic_fiesta.Queue.{check_for_response, new_transaction_id, wait_for_response, get, answer_in}
use psychic_fiesta.Queue.Outgoing.{Call, push, pop, answer, after_all, popped, popped-pushed}
use psychic_fiesta.Queue.Transactions.{answer_all, answer_all_once}
use psychic_fiesta.Queue.Transactions.{check_for_response-set_response, push_outgoing_queue_race}
use psychic_fiesta.Queue.Transactions.{new_transaction_id_lem}
use psychic_fiesta.Queue.Waiting.{seen, wait_for_response_lem}

abbrev ping : P2pPacket
ping = request (record { session_id = 1; transaction_id = 7; packet = Request.ping })

abbrev pong : P2pResponse
pong = record { session_id = 1; transaction_id = 7; packet = Response.pong }

abbrev two_calls : List Call
two_calls = push ping (some 40) ∷ push (response pong) none ∷ pop ∷ answer 7 none ∷ []

popped-pushed_example :
    popped two_calls initial ++ (after_all two_calls initial).outgoing
    ≡ (ping, 7) ∷ (response pong, 7) ∷ []
popped-pushed_example = popped-pushed two_calls initial

-- Transaction 7 waits with the closure 40, and 8 without one.
abbrev waiting : Net
waiting = record initial {
  table =
      (7, record { answer = none; closure = some 40 })
      ∷ (8, record { answer = none; closure = none })
      ∷ [];
}

answer_all_once_example :
    ((answer_all 7 (some (response pong) ∷ some (response pong) ∷ none ∷ []) waiting).calls
      ≡ (40, pong) ∷ [])
    × (check_transaction_id 7
          (answer_all 7 (some (response pong) ∷ some (response pong) ∷ none ∷ []) waiting)
        ≡ false)
unfolding get
answer_all_once_example =
    answer_all_once 7 pong (some (response pong) ∷ none ∷ [])
      (record { answer = none; closure = some 40 }) 40 waiting refl refl

check_for_response-set_response_example :
    ((check_for_response (set_response 7 none) 8 (set_response 8 (some (response pong)) waiting)).0
      ≡ some (response pong))
    × (check_transaction_id 8
          (check_for_response
            (set_response 7 none)
            8
            (set_response 8 (some (response pong)) waiting)).1
        ≡ false)
unfolding get
check_for_response-set_response_example =
    check_for_response-set_response (set_response 7 none) 8 (response pong)
      (record { answer = none; closure = none }) waiting refl refl

push_outgoing_queue_race_example :
    push_outgoing_queue (set_response 7 (some (response pong))) ping (some 40) initial
    ≡ push_outgoing_queue (λ n. n) ping (some 40) initial
unfolding get
push_outgoing_queue_race_example =
    push_outgoing_queue_race ping (some 40) (some (response pong)) initial refl

-- Draws 8, 9, 10 and so on.
abbrev from_eight : ℕ → ℕ
from_eight i = 8 + i

-- Between the first two tests another task queues a request under id 9.
abbrev nine : P2pPacket
nine = request (record { session_id = 1; transaction_id = 9; packet = Request.ping })

abbrev takes_nine : ℕ → Net → Net
takes_nine (suc zero) n = (push_outgoing_queue (λ n'. n') nine none n).1
takes_nine _ n = n

eight_taken :
    (j : ℕ) → j < 2 → check_transaction_id (from_eight j) (seen j takes_nine waiting) ≡ true
unfolding check_transaction_id push_outgoing_queue
eight_taken zero h = refl
eight_taken (suc zero) h = refl
eight_taken (suc (suc j)) h = absurd (omega arith)

new_transaction_id_lem_example :
    new_transaction_id 3 takes_nine from_eight waiting ≡ done (10, takes_nine 1 waiting)
unfolding check_transaction_id push_outgoing_queue
new_transaction_id_lem_example =
    new_transaction_id_lem 2 3 takes_nine from_eight waiting eight_taken refl (omega arith)

-- Another task answers transaction 8 before the second round.
abbrev later : ℕ → Net → Net
later zero n = n
later (suc i) n = set_response 8 (some (response pong)) n

first_seen : (j : ℕ) → j < 1 → answer_in 8 (seen j later waiting) ≡ none
unfolding get set_response
first_seen zero h = refl
first_seen (suc j) h = absurd (omega arith)

wait_for_response_lem_example :
    (n' : Net) × (wait_for_response 5 later 8 waiting ≡ done (response pong, n'))
    × (check_transaction_id 8 n' ≡ false)
unfolding get set_response
wait_for_response_lem_example =
    wait_for_response_lem 1 5 later 8 (response pong) waiting first_seen refl (omega arith)
