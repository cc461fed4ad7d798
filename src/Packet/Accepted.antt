-- ===== src/Packet/Accepted.antt =====
-- What a peer accepts it can pass on: a decoded packet is one that the format can carry.
use psychic_fiesta.Prelude.{ℕ, ◌+◌, ◌*◌}
use psychic_fiesta.Prelude.{[], ◌∷◌, ◌≡◌, ◌⊎◌, inl, inr, arith}
use psychic_fiesta.Prelude.{All, ◌==◌}
use psychic_fiesta.Packet.Wire.{Bytes, Parsed, ok, err, panic, ◌>>=◌, IsByte, IsU16}
use psychic_fiesta.Packet.Request
use psychic_fiesta.Packet.Request.{P2pRequestPacket, P2pRequest}
use psychic_fiesta.Packet.Response
use psychic_fiesta.Packet.Response.{P2pResponsePacket, P2pResponse}
use psychic_fiesta.Packet.{P2pPacket, request, response, to_packet, from_packet}
use psychic_fiesta.Packet.RoundTrip.{IsSendableRequest}
use psychic_fiesta.Packet.RoundTrip.{IsSendable, request_header, response_header}
use psychic_fiesta.Packet.RoundTrip.{from_packet-to_packet}
use psychic_fiesta.Packet.Bodies.{Accepts, Accepts-if, IsBoard, IsRelayable}
use psychic_fiesta.Packet.Bodies.{request_body-IsSendable, response_body-IsRelayable}

-- The packet carries a board, which no encoder writes as the decoder reads it.
abbrev pub HasBoard : P2pPacket → Type 0
HasBoard (request r) = ⊥
HasBoard (response r) = IsBoard r.packet

abbrev pub Accepted : P2pPacket → Type 0
Accepted p = IsSendable p ⊎ HasBoard p

be_bytes-IsU16 : (hi lo : ℕ) → IsByte hi → IsByte lo → IsU16 (hi * 256 + lo)
be_bytes-IsU16 hi lo h k = omega arith

module _ (session_id transaction_id : ℕ) (s : IsU16 session_id) (t : IsU16 transaction_id) where
  built_request :
      (body : Parsed P2pRequestPacket)
      → Accepts IsSendableRequest body
      → Accepts Accepted (
          (body >>= λ packet.
          ok (record { session_id = session_id; transaction_id = transaction_id; packet = packet }))
          >>= λ r. ok (request r))
  built_request (ok packet) h = inl (s, t, h)
  built_request (err e) h = tt
  built_request panic h = tt

  built_response :
      (body : Parsed P2pResponsePacket)
      → Accepts IsRelayable body
      → Accepts Accepted (
          (body >>= λ packet.
          ok (record { session_id = session_id; transaction_id = transaction_id; packet = packet }))
          >>= λ r. ok (response r))
  built_response (ok packet) (inl h) = inl (s, t, h)
  built_response (ok packet) (inr h) = inr h
  built_response (err e) h = tt
  built_response panic h = tt

request-Accepted :
    (bs : Bytes)
    → All IsByte bs
    → Accepts Accepted (Request.from_packet (0 ∷ bs) >>= λ r. ok (request r))
unfolding Request.from_packet
request-Accepted [] h = tt
request-Accepted (_ ∷ []) h = tt
request-Accepted (_ ∷ _ ∷ []) h = tt
request-Accepted (_ ∷ _ ∷ _ ∷ []) h = tt
request-Accepted (_ ∷ _ ∷ _ ∷ _ ∷ []) h = tt
request-Accepted (s₁ ∷ s₀ ∷ t₁ ∷ t₀ ∷ b ∷ bs) (h₁, (h₀, (g₁, (g₀, h)))) =
    rw (request_header s₁ s₀ t₁ t₀ b bs) (
      built_request (s₁ * 256 + s₀) (t₁ * 256 + t₀) (be_bytes-IsU16 s₁ s₀ h₁ h₀)
        (be_bytes-IsU16 t₁ t₀ g₁ g₀) (Request.body_from_packet (b ∷ bs))
        (request_body-IsSendable (b ∷ bs) h))

response-Accepted :
    (bs : Bytes)
    → All IsByte bs
    → Accepts Accepted (Response.from_packet (1 ∷ bs) >>= λ r. ok (response r))
unfolding Response.from_packet
response-Accepted [] h = tt
response-Accepted (_ ∷ []) h = tt
response-Accepted (_ ∷ _ ∷ []) h = tt
response-Accepted (_ ∷ _ ∷ _ ∷ []) h = tt
response-Accepted (_ ∷ _ ∷ _ ∷ _ ∷ []) h = tt
response-Accepted (s₁ ∷ s₀ ∷ t₁ ∷ t₀ ∷ b ∷ bs) (h₁, (h₀, (g₁, (g₀, h)))) =
    rw (response_header s₁ s₀ t₁ t₀ b bs) (
      built_response (s₁ * 256 + s₀) (t₁ * 256 + t₀) (be_bytes-IsU16 s₁ s₀ h₁ h₀)
        (be_bytes-IsU16 t₁ t₀ g₁ g₀) (Response.body_from_packet (b ∷ bs))
        (response_body-IsRelayable (b ∷ bs)))

from_packet-Accepted : (bytes : Bytes) → All IsByte bytes → Accepts Accepted (from_packet bytes)
unfolding from_packet
from_packet-Accepted [] h = tt
from_packet-Accepted (b ∷ bs) (_, h) =
    Accepts-if Accepted (b == 0) _ _
      (λ zeroth. let e : b ≡ 0 = ground (arith, zeroth) in rw e (request-Accepted bs h))
      (λ _.
        Accepts-if Accepted (b == 1) _ _
          (λ first. let e : b ≡ 1 = ground (arith, first) in rw e (response-Accepted bs h))
          (λ _. tt))

-- A packet that was decoded from bytes and carries no board can be sent on: its ids fit two bytes, its
-- squares one each, its texts are UTF-8, and decoding what it is encoded as gives the packet again.
pub from_packet-relayed :
    (bytes : Bytes) (p : P2pPacket)
    → All IsByte bytes
    → from_packet bytes ≡ ok p
    → ¬ HasBoard p
    → IsSendable p × (from_packet (to_packet p) ≡ ok p)
from_packet-relayed bytes p h e plain = elim (rw e at (from_packet-Accepted bytes h)) [
  | inl sendable ↦ (sendable, from_packet-to_packet p sendable)
  | inr board ↦ absurd (plain board)
]
