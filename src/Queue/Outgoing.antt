-- ===== src/Queue/Outgoing.antt =====
-- The queue of packets to send under every sequence of calls.
use psychic_fiesta.Prelude.{ℕ, Option, none, some, List, [], ◌∷◌, ◌++◌, ◌≡◌, refl, sym, ap, ◌∙◌}
use psychic_fiesta.Packet.{P2pPacket, request, response}
use psychic_fiesta.Queue.{Closure, Entry, Net, transaction_of, front, push_outgoing_queue}
use psychic_fiesta.Queue.{
  pop_outgoing_queue, set_response, run, answer_entry, check_for_response, get,
}
use psychic_fiesta.Queue.{is_some, answer_in}
use psychic_fiesta.Prelude.{Bool-cases, Option-cases, inl, inr}
use mathlib.Core.List.{append-nil, append_assoc}

-- A call of one of the tasks, run without another one in between.
pub data Call : Type 0 where
  push : P2pPacket → Option Closure → Call
  pop : Call
  answer : ℕ → Option P2pPacket → Call
  check : ℕ → Call

abbrev pub after : Call → Net → Net
after (push packet closure) n = (push_outgoing_queue (λ n'. n') packet closure n).1
after pop n = (pop_outgoing_queue n).1
after (answer id a) n = set_response id a n
after (check id) n = (check_for_response (λ n'. n') id n).1

abbrev pub after_all : List Call → Net → Net
after_all [] n = n
after_all (c ∷ cs) n = after_all cs (after c n)

abbrev pub to_list {ℓ} : {A : Type ℓ} → Option A → List A
to_list none = []
to_list (some a) = a ∷ []

abbrev pub popped_by : Call → Net → List (P2pPacket × ℕ)
popped_by pop n = to_list (pop_outgoing_queue n).0
popped_by _ n = []

-- What the calls popped, in order.
abbrev pub popped : List Call → Net → List (P2pPacket × ℕ)
popped [] n = []
popped (c ∷ cs) n = popped_by c n ++ popped cs (after c n)

abbrev pub pushed_by : Call → List (P2pPacket × ℕ)
pushed_by (push packet closure) = (packet, transaction_of packet) ∷ []
pushed_by _ = []

-- What the calls pushed, in order.
abbrev pub pushed : List Call → List (P2pPacket × ℕ)
pushed [] = []
pushed (c ∷ cs) = pushed_by c ++ pushed cs

run-outgoing : (c : Closure) (a : Option P2pPacket) (n : Net) → (run c a n).outgoing ≡ n.outgoing
run-outgoing c none n = refl
run-outgoing c (some (request r)) n = refl
run-outgoing c (some (response r)) n = refl

answer_entry-outgoing :
    (id : ℕ) (a : Option P2pPacket) (e : Option Entry) (n : Net)
    → (answer_entry id a e n).outgoing ≡ n.outgoing
answer_entry-outgoing id a none n = refl
answer_entry-outgoing id a (some e) n = elim (Option-cases e.closure) [
  | inl q ↦ rw q refl
  | inr (c, q) ↦ rw q (run-outgoing c a n)
]

check_for_response-outgoing :
    (id : ℕ) (n : Net) → (check_for_response (λ n'. n') id n).1.outgoing ≡ n.outgoing
unfolding check_for_response
check_for_response-outgoing id n = elim (Bool-cases (is_some (answer_in id n))) [
  | inl q ↦ rw q refl
  | inr q ↦ rw q refl
]

front_whole {ℓ} : {A : Type ℓ} (xs : List A) → to_list (front xs).0 ++ (front xs).1 ≡ xs
front_whole [] = refl
front_whole (x ∷ xs) = refl

one_call : (c : Call) (n : Net) → popped_by c n ++ (after c n).outgoing ≡ n.outgoing ++ pushed_by c
unfolding push_outgoing_queue pop_outgoing_queue set_response
one_call (push packet closure) n = refl
one_call pop n = front_whole n.outgoing ∙ sym (append-nil _)
one_call (answer id a) n = answer_entry-outgoing id a (get n.table id) n ∙ sym (append-nil _)
one_call (check id) n = check_for_response-outgoing id n ∙ sym (append-nil _)

-- First in, first out: after any sequence of calls, the packets popped and then those still queued
-- are the packets queued before and then those pushed, in the same order.
pub popped-pushed :
    (cs : List Call) (n : Net) → popped cs n ++ (after_all cs n).outgoing ≡ n.outgoing ++ pushed cs
popped-pushed [] n = sym (append-nil _)
popped-pushed (c ∷ cs) n =
    append_assoc (popped_by c n) _ _
    ∙ ap (λ l. popped_by c n ++ l) (popped-pushed cs (after c n))
    ∙ sym (append_assoc (popped_by c n) _ _)
    ∙ ap (λ l. l ++ pushed cs) (one_call c n)
    ∙ append_assoc n.outgoing _ _
