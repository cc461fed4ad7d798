-- ===== src/Queue/Waiting.antt =====
-- Waiting for a response while other tasks run.
use psychic_fiesta.Prelude.{ℕ, zero, suc, ◌<◌, false, none, some, ◌≡◌, refl, ap, arith}
use psychic_fiesta.Prelude.Outcome.{done}
use psychic_fiesta.Packet.{P2pPacket}
use psychic_fiesta.Queue.{Net, wait_for_response, check_transaction_id, answer_in, is_some, remove}
use psychic_fiesta.Queue.Table.{get-remove}

-- What round `k` of the loop sees, if no earlier one saw a response.
abbrev pub seen : ℕ → (ℕ → Net → Net) → Net → Net
seen zero others n = others 0 n
seen (suc k) others n = seen k (λ i. others (suc i)) (others 0 n)

-- The loop returns the response that the first round to see one sees, once there is fuel for that
-- round, and the transaction is over then.
pub wait_for_response_lem :
    (k fuel : ℕ) (others : ℕ → Net → Net) (id : ℕ) (p : P2pPacket) (n : Net)
    → ((j : ℕ) → j < k → answer_in id (seen j others n) ≡ none)
    → answer_in id (seen k others n) ≡ some p
    → k < fuel
    → (n' : Net) × (wait_for_response fuel others id n ≡ done (p, n'))
      × (check_transaction_id id n' ≡ false)
unfolding wait_for_response check_transaction_id
wait_for_response_lem zero zero others id p n before at h = absurd (omega arith)
wait_for_response_lem zero (suc fuel) others id p n before at h =
    let n' = others 1 (others 0 n) in
    let over = get-remove n'.table id in
    (record n' { table = remove n'.table id }, rw (wait_for_response, at) refl, ap is_some over)
wait_for_response_lem (suc k) zero others id p n before at h = absurd (omega arith)
wait_for_response_lem (suc k) (suc fuel) others id p n before at h =
    rw (wait_for_response, before 0 (omega arith))
      (wait_for_response_lem k fuel (λ i. others (suc i)) id p (others 0 n)
        (λ j lt. before (suc j) (omega arith)) at (omega arith))
