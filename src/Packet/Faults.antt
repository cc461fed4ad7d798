-- ===== src/Packet/Faults.antt =====
-- Where the decoder panics, and what it makes of boards.
use psychic_fiesta.Prelude.{
  ℕ, zero, suc, ◌+◌, ◌<◌, Bool, true, false, not, ◌&&◌, ◌||◌, List, [], ◌∷◌,
}
use psychic_fiesta.Prelude.{
  ◌≡◌, ◌≢◌, ◌↔◌, refl, sym, ◌∙◌, arith, map, length, length-map, if◌then◌else◌,
}
use psychic_fiesta.Prelude.{◌/◌, ◌%◌, leb, ◌==◌}
use psychic_fiesta.Game.{PieceColor, white, black, PieceData, const_default, GameAction}
use psychic_fiesta.Packet.Wire.{Bytes, Parsed, ok, err, panic, ◌>>=◌, invalid_length}
use psychic_fiesta.Packet.Piece.{piece_to_u8, piece_try_from}
use psychic_fiesta.Packet.Action
use psychic_fiesta.Packet.Request
use psychic_fiesta.Packet.Request.{P2pRequest}
use psychic_fiesta.Packet.Response
use psychic_fiesta.Packet.Response.{P2pResponse}
use psychic_fiesta.Packet.RoundTrip.{request_header, response_header}
use psychic_fiesta.Packet.{response, to_packet, from_packet}

-- A piece as it arrives: an active one is lost, and an inactive one becomes active.
abbrev pub flipped : PieceData → PieceData
flipped p = if p.is_active then const_default else record p { is_active = true }

flip_by_fields :
    (active king : Bool) (c : PieceColor)
    → piece_try_from (piece_to_u8 (record { is_active = active; is_king = king; color = c }))
      ≡ ok (flipped (record { is_active = active; is_king = king; color = c }))
unfolding piece_try_from piece_to_u8
flip_by_fields true king c = refl
flip_by_fields false true white = refl
flip_by_fields false true black = refl
flip_by_fields false false white = refl
flip_by_fields false false black = refl

-- Every piece is decoded, and with its activity inverted: an active piece is encoded as 0, which is
-- decoded as no piece, and an inactive one as a byte that is decoded as an active piece of the same
-- colour and rank.
pub piece_try_from-to_u8 : (p : PieceData) → piece_try_from (piece_to_u8 p) ≡ ok (flipped p)
piece_try_from-to_u8 p = flip_by_fields p.is_active p.is_king p.color

-- A board of fewer than 64 pieces, such as the game's 32, is refused by the peer that asked for it.
pub resync_refused :
    (s t : ℕ) (board : List PieceData)
    → length board < 64
    → from_packet (
        to_packet (
          response (record { session_id = s; transaction_id = t; packet = Response.resync board })))
      ≡ err (invalid_length 65 (1 + length board))
unfolding from_packet to_packet Response.body_from_packet
resync_refused s t board h = ground (
  arith,
  response_header (s / 256 % 256) (s % 256) (t / 256 % 256) (t % 256) 3 (map piece_to_u8 board),
  length-map piece_to_u8 board,
)

-- The bytes of a valid action, its first one apart.
abbrev is_action : ℕ → Bytes → Bool
is_action a rest = (a == 0 && leb 3 (length rest)) || ((a == 1 || a == 2) && (length rest == 0))

-- The bodies of requests that make the receiver panic, the packet's code apart.
abbrev crashes_body : ℕ → Bytes → Bool
crashes_body b [] = false
crashes_body b (a ∷ rest) = b == 4 && not (is_action a rest)

-- The datagrams that make the receiver panic: the empty one, and a request with the code of a game
-- action whose bytes are no action.
abbrev pub crashes : Bytes → Bool
crashes [] = true
crashes (k ∷ _ ∷ _ ∷ _ ∷ _ ∷ b ∷ bs) = k == 0 && crashes_body b bs
crashes _ = false

action-unwrap :
    (a : ℕ) (rest : Bytes)
    → (Request.unwrap (Action.from_packet (a ∷ rest)) ≡ panic) ↔ (is_action a rest ≡ false)
unfolding Action.from_packet
action-unwrap a [] = ground arith
action-unwrap a (x ∷ []) = ground arith
action-unwrap a (x ∷ y ∷ []) = ground arith
action-unwrap a (x ∷ y ∷ z ∷ rest) = ground arith

pieces_from-ne-panic : (bs : Bytes) → Response.pieces_from bs ≢ panic
unfolding Response.pieces_from
pieces_from-ne-panic [] = λ e. cc
pieces_from-ne-panic (b ∷ bs) = ground (arith, pieces_from-ne-panic bs)

response_body-ne-panic : (bs : Bytes) → Response.body_from_packet bs ≢ panic
unfolding Response.body_from_packet
response_body-ne-panic [] = λ e. cc
response_body-ne-panic (b ∷ []) = ground arith
response_body-ne-panic (b ∷ x ∷ []) = ground arith
response_body-ne-panic (b ∷ x ∷ y ∷ bs) = ground (arith, pieces_from-ne-panic (x ∷ y ∷ bs))

connect-ne-panic : (b : ℕ) (bs : Bytes) → Request.connect_from_packet (b ∷ bs) ≢ panic
unfolding Request.connect_from_packet
connect-ne-panic b bs = ground arith

unwrap-panic :
    (q : Parsed GameAction)
    → ((q >>= λ action. ok (Request.game_action action)) ≡ panic) ↔ (q ≡ panic)
unwrap-panic (ok a) = ((λ e. absurd (ne e)), (λ e. absurd (ne' e)))
  where
    ne : ok (Request.game_action a) ≢ panic
    ne = λ e. cc

    ne' : ok a ≢ panic
    ne' = λ e. cc
unwrap-panic (err e) = ground arith
unwrap-panic panic = ground arith

game_action_cons :
    (b a : ℕ) (rest : Bytes)
    → Request.game_action_from_packet (b ∷ a ∷ rest) ≡ (
        Request.unwrap (Action.from_packet (a ∷ rest)) >>= λ action.
        ok (Request.game_action action))
unfolding Request.game_action_from_packet
game_action_cons b a rest = ground arith

game_action-panic :
    (b a : ℕ) (rest : Bytes)
    → (Request.game_action_from_packet (b ∷ a ∷ rest) ≡ panic) ↔ (is_action a rest ≡ false)
game_action-panic b a rest =
    let (f, g) = unwrap-panic (Request.unwrap (Action.from_packet (a ∷ rest))) in
    let (f', g') = action-unwrap a rest in
    let e = game_action_cons b a rest in (λ h. f' (f (sym e ∙ h)), λ h. e ∙ g (g' h))

request_body-panic :
    (b : ℕ) (bs : Bytes) → (Request.body_from_packet (b ∷ bs) ≡ panic) ↔ (crashes_body b bs ≡ true)
unfolding Request.body_from_packet
request_body-panic b [] = (λ e. absurd (ground (arith, connect-ne-panic b [])), λ e. ground arith)
request_body-panic b (a ∷ rest) =
    let (f, g) = game_action-panic b a rest in
    (
      λ e. ground (arith, f, g, connect-ne-panic b (a ∷ rest)),
      λ e. ground (arith, f, g, connect-ne-panic b (a ∷ rest)),
    )

long_panic :
    (k s₁ s₀ t₁ t₀ b : ℕ) (bs : Bytes)
    → (from_packet (k ∷ s₁ ∷ s₀ ∷ t₁ ∷ t₀ ∷ b ∷ bs) ≡ panic) ↔ (k == 0 && crashes_body b bs ≡ true)
unfolding from_packet
long_panic zero s₁ s₀ t₁ t₀ b bs =
    let (f, g) = request_body-panic b bs in rw request_header (ground (arith, f, g))
long_panic (suc zero) s₁ s₀ t₁ t₀ b bs =
    rw response_header (ground (arith, response_body-ne-panic (b ∷ bs)))
long_panic (suc (suc k)) s₁ s₀ t₁ t₀ b bs = ground arith

short_panic : (b : ℕ) (bs : Bytes) → length bs < 5 → from_packet (b ∷ bs) ≢ panic
unfolding from_packet Request.from_packet Response.from_packet
short_panic b bs h = ground arith

no_crash :
    (b : ℕ) (bs : Bytes)
    → length bs < 5
    → crashes (b ∷ bs) ≡ false
    → (from_packet (b ∷ bs) ≡ panic) ↔ (crashes (b ∷ bs) ≡ true)
no_crash b bs h e = (λ p. absurd (short_panic b bs h p), λ c. absurd (true-ne-false (sym c ∙ e)))
  where
    true-ne-false : true ≢ false
    true-ne-false = λ q. cc

pub from_packet-panic : (bs : Bytes) → (from_packet bs ≡ panic) ↔ (crashes bs ≡ true)
unfolding from_packet
from_packet-panic [] = (λ e. refl, λ e. refl)
from_packet-panic (k ∷ s₁ ∷ s₀ ∷ t₁ ∷ t₀ ∷ b ∷ bs) = long_panic k s₁ s₀ t₁ t₀ b bs
from_packet-panic (a ∷ []) = no_crash a [] (omega arith) refl
from_packet-panic (a ∷ b ∷ []) = no_crash a (b ∷ []) (omega arith) refl
from_packet-panic (a ∷ b ∷ c ∷ []) = no_crash a (b ∷ c ∷ []) (omega arith) refl
from_packet-panic (a ∷ b ∷ c ∷ d ∷ []) = no_crash a (b ∷ c ∷ d ∷ []) (omega arith) refl
from_packet-panic (a ∷ b ∷ c ∷ d ∷ e ∷ []) = no_crash a (b ∷ c ∷ d ∷ e ∷ []) (omega arith) refl
