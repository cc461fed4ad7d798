-- ===== src/Packet/RoundTrip.antt =====
-- Decoding what was encoded.
use psychic_fiesta.Prelude.{ℕ, zero, suc, ◌+◌, ◌*◌, ◌/◌, ◌%◌, ◌<◌, Option, none, some}
use psychic_fiesta.Prelude.{List, [], ◌∷◌, ◌++◌, map, ◌≡◌, ◌≢◌, refl, ap, arith, All, length}
use psychic_fiesta.Prelude.{take, drop, length-append, Option-cases, inl, inr}
use psychic_fiesta.Game.{PieceColor, white, black, GameAction, move_piece, stalemate, surrender}
use mathlib.Core.Path.{ap₂}
use psychic_fiesta.Packet.Wire.{Bytes, ok, ◌>>=◌, IsByte, IsU16}
use psychic_fiesta.Packet.Text.{IsText}
use psychic_fiesta.Packet.Piece.{P2pError, error_to_u8, color_to_u8, color_try_from}
use psychic_fiesta.Packet.Action
use psychic_fiesta.Packet.Request
use psychic_fiesta.Packet.Request.{P2pRequestPacket, P2pRequest}
use psychic_fiesta.Packet.Response
use psychic_fiesta.Packet.Response.{P2pResponsePacket, P2pResponse}
use psychic_fiesta.Packet.{P2pPacket, request, response, to_packet, from_packet}

-- The squares of a move fit a byte, and a list of captured squares is not empty.
abbrev pub IsCompactList : Option (List ℕ) → Type 0
IsCompactList none = Unit
IsCompactList (some captured) = All IsByte captured × (captured ≢ [])

abbrev pub IsCompact : GameAction → Type 0
IsCompact (move_piece m) = IsByte m.index × IsByte m.end × IsCompactList m.captured
IsCompact _ = Unit

abbrev pub IsSendableRequest : P2pRequestPacket → Type 0
IsSendableRequest (Request.connect join_code username) =
    (length join_code ≡ 12) × IsText join_code × IsText username × (username ≢ [])
IsSendableRequest (Request.game_action action) = IsCompact action
IsSendableRequest _ = Unit

-- No board is decoded as it was sent (`resync_refused` and `piece_try_from-to_u8`).
abbrev pub IsSendableResponse : P2pResponsePacket → Type 0
IsSendableResponse (Response.connect color username) = IsText username × (username ≢ [])
IsSendableResponse (Response.resync board) = ⊥
IsSendableResponse _ = Unit

abbrev pub IsSendable : P2pPacket → Type 0
IsSendable (request r) = IsU16 r.session_id × IsU16 r.transaction_id × IsSendableRequest r.packet
IsSendable (response r) = IsU16 r.session_id × IsU16 r.transaction_id × IsSendableResponse r.packet

map_mod : (xs : List ℕ) → All IsByte xs → map (λ x. x % 256) xs ≡ xs
map_mod [] h = refl
map_mod (x ∷ xs) h = ground (arith, map_mod xs h.1)

action-round : (a : GameAction) → IsCompact a → Action.from_packet (Action.to_packet a) ≡ ok a
unfolding Action.from_packet Action.to_packet
action-round stalemate h = refl
action-round surrender h = refl
action-round (move_piece m) h = elim (Option-cases m.captured) [
  | inl e ↦ ground arith
  | inr ([], e) ↦ ground arith
  | inr (c ∷ cs, e) ↦ ground (arith, map_mod (c ∷ cs))
]

be_bytes-round : (n : ℕ) → IsU16 n → n / 256 % 256 * 256 + n % 256 ≡ n
be_bytes-round n h = omega arith

-- The header of a request is read back, and the rest goes to the body's decoder.
pub request_header :
    (s₁ s₀ t₁ t₀ b : ℕ) (bs : Bytes)
    → Request.from_packet (0 ∷ s₁ ∷ s₀ ∷ t₁ ∷ t₀ ∷ b ∷ bs) ≡ (
        Request.body_from_packet (b ∷ bs) >>= λ body.
        ok (record { session_id = s₁ * 256 + s₀; transaction_id = t₁ * 256 + t₀; packet = body }))
unfolding Request.from_packet
request_header s₁ s₀ t₁ t₀ b bs = ground arith

take-append :
    (n : ℕ) (xs ys : Bytes) → n ≡ length xs → (take n (xs ++ ys) ≡ xs) × (drop n (xs ++ ys) ≡ ys)
take-append zero [] ys e = (refl, refl)
take-append zero (x ∷ xs) ys e = absurd (omega arith)
take-append (suc n) [] ys e = absurd (omega arith)
take-append (suc n) (x ∷ xs) ys e =
    let (t, d) = take-append n xs ys (omega arith) in (ap (λ l. x ∷ l) t, d)

length-ne-nil : (xs : Bytes) → xs ≢ [] → 0 < length xs
length-ne-nil [] h = absurd (h refl)
length-ne-nil (x ∷ xs) h = omega arith

connect-round :
    (join_code username : Bytes)
    → IsSendableRequest (Request.connect join_code username)
    → Request.connect_from_packet (2 ∷ (join_code ++ username))
      ≡ ok (Request.connect join_code username)
unfolding Request.connect_from_packet
connect-round join_code username (size, code, name, ne) =
    let (t, d) = take-append 12 join_code username (omega arith) in
    ground (arith, t, d, code, name, length-append join_code username, length-ne-nil username ne)

game_action-round :
    (action : GameAction)
    → IsCompact action
    → Request.game_action_from_packet (4 ∷ Action.to_packet action)
      ≡ ok (Request.game_action action)
unfolding Request.game_action_from_packet Action.to_packet
game_action-round action h = ground (arith, action-round action h)

request_body-round :
    (p : P2pRequestPacket)
    → IsSendableRequest p
    → Request.body_from_packet (Request.body_to_packet p) ≡ ok p
unfolding Request.body_from_packet Request.body_to_packet
request_body-round Request.ping h = refl
request_body-round (Request.connect join_code username) h = connect-round join_code username h
request_body-round Request.resync h = refl
request_body-round (Request.game_action action) h = game_action-round action h

-- The header of a response is read back, and the rest goes to the body's decoder.
pub response_header :
    (s₁ s₀ t₁ t₀ b : ℕ) (bs : Bytes)
    → Response.from_packet (1 ∷ s₁ ∷ s₀ ∷ t₁ ∷ t₀ ∷ b ∷ bs) ≡ (
        Response.body_from_packet (b ∷ bs) >>= λ body.
        ok (record { session_id = s₁ * 256 + s₀; transaction_id = t₁ * 256 + t₀; packet = body }))
unfolding Response.from_packet
response_header s₁ s₀ t₁ t₀ b bs = ground arith

response_connect-round :
    (c : PieceColor) (username : Bytes)
    → IsText username
    → username ≢ []
    → Response.connect_from_packet (2 ∷ color_to_u8 c ∷ username) ≡ ok (Response.connect c username)
unfolding Response.connect_from_packet color_to_u8 color_try_from
response_connect-round white username name ne = ground (arith, name, length-ne-nil username ne)
response_connect-round black username name ne = ground (arith, name, length-ne-nil username ne)

error-round :
    (kind : P2pError)
    → Response.error_from_packet (0 ∷ error_to_u8 kind ∷ []) ≡ ok (Response.error kind)
unfolding Response.error_from_packet error_to_u8
error-round kind = ground arith

response_body-round :
    (p : P2pResponsePacket)
    → IsSendableResponse p
    → Response.body_from_packet (Response.body_to_packet p) ≡ ok p
unfolding Response.body_from_packet Response.body_to_packet
response_body-round (Response.error kind) h = error-round kind
response_body-round Response.pong h = refl
response_body-round (Response.connect c username) h = response_connect-round c username h.0 h.1
response_body-round (Response.resync board) h = absurd h
response_body-round Response.acknowledge h = refl

request_body-cons :
    (p : P2pRequestPacket) → (b : ℕ) × (bs : Bytes) × (Request.body_to_packet p ≡ b ∷ bs)
unfolding Request.body_to_packet
request_body-cons Request.ping = (_, _, refl)
request_body-cons (Request.connect join_code username) = (_, _, refl)
request_body-cons Request.resync = (_, _, refl)
request_body-cons (Request.game_action action) = (_, _, refl)

response_body-cons :
    (p : P2pResponsePacket) → (b : ℕ) × (bs : Bytes) × (Response.body_to_packet p ≡ b ∷ bs)
unfolding Response.body_to_packet
response_body-cons (Response.error kind) = (_, _, refl)
response_body-cons Response.pong = (_, _, refl)
response_body-cons (Response.connect c username) = (_, _, refl)
response_body-cons (Response.resync pieces) = (_, _, refl)
response_body-cons Response.acknowledge = (_, _, refl)

request-round :
    (r : P2pRequest) → IsSendable (request r) → Request.from_packet (Request.to_packet r) ≡ ok r
unfolding Request.to_packet
request-round r (s, t, h) =
    let (b, bs, e) = request_body-cons r.packet in
    let body = rw e at (request_body-round r.packet h) in
    rw (e, request_header)
      (rw body (
        ap₂ (λ i j. ok (record r { session_id = i; transaction_id = j }))
          (be_bytes-round r.session_id s) (be_bytes-round r.transaction_id t)))

response-round :
    (r : P2pResponse) → IsSendable (response r) → Response.from_packet (Response.to_packet r) ≡ ok r
unfolding Response.to_packet
response-round r (s, t, h) =
    let (b, bs, e) = response_body-cons r.packet in
    let body = rw e at (response_body-round r.packet h) in
    rw (e, response_header)
      (rw body (
        ap₂ (λ i j. ok (record r { session_id = i; transaction_id = j }))
          (be_bytes-round r.session_id s) (be_bytes-round r.transaction_id t)))

-- A packet whose fields fit the format is decoded as it was sent: ids below 2 ^ 16, squares below
-- 256, a list of captured squares that is not empty, a join code of twelve bytes, a name that is
-- not empty, both of them UTF-8, and no board.
pub from_packet-to_packet : (p : P2pPacket) → IsSendable p → from_packet (to_packet p) ≡ ok p
unfolding from_packet to_packet
from_packet-to_packet (request r) h = ap (λ q. q >>= λ r'. ok (request r')) (request-round r h)
from_packet-to_packet (response r) h = ap (λ q. q >>= λ r'. ok (response r')) (response-round r h)
