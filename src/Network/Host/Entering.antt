-- ===== src/Network/Host/Entering.antt =====
-- When a request makes its sender the host's client.
use psychic_fiesta.Prelude.{ℕ, true, none, some, [], ◌∷◌}
use psychic_fiesta.Prelude.{◌≡◌, ◌⊎◌, inl, inr, refl, ap, arith, ◌==◌}
use psychic_fiesta.Prelude.{Bool-cases, Option-cases}
use psychic_fiesta.Prelude.Outcome.{done}
use psychic_fiesta.Packet.Wire.{Bytes}
use psychic_fiesta.Packet.Piece.{full_game_session, invalid_join_code, invalid_session_id}
use psychic_fiesta.Game.{white}
use psychic_fiesta.Packet.{response}
use psychic_fiesta.Packet.Request
use psychic_fiesta.Packet.Request.{P2pRequest, P2pRequestPacket}
use psychic_fiesta.Packet.Response
use psychic_fiesta.Packet.Response.{P2pResponsePacket}
use psychic_fiesta.Address.{SocketAddr}
use psychic_fiesta.Status.{ConnectionData, connect_session_id}
use psychic_fiesta.Queue.{Net, push_incoming_gameaction, push_outgoing_queue}
use psychic_fiesta.Network.{Peer}
use psychic_fiesta.Network.Host.{
  text_eq, unwrap_or, host_name, joined, host_connect, host_packet, host_request,
}

pub text_eq→≡ : (a b : Bytes) → text_eq a b ≡ true → a ≡ b
text_eq→≡ [] [] h = refl
text_eq→≡ [] (y ∷ b) h = cc
text_eq→≡ (x ∷ a) [] h = cc
text_eq→≡ (x ∷ a) (y ∷ b) h = ground (arith, text_eq→≡ a b)

-- A packet that connects with the host's code, of a client that may enter.
abbrev pub Enters :
    Bytes → ℕ → SocketAddr → ℕ → P2pRequestPacket → ConnectionData → ConnectionData → Type 0
Enters code random addr session_id packet c c' =
    (username : Bytes) × (packet ≡ Request.connect code username)
    × (session_id ≡ connect_session_id)
    × (c.other_addr ≡ none)
    × (c' ≡ joined random addr username c)

host_connect-Enters :
    (code : Bytes) (random : ℕ) (addr : SocketAddr) (session_id : ℕ) (join_code username : Bytes)
    (c : ConnectionData)
    → c.join_code ≡ some code
    → (packet : P2pResponsePacket) × (c' : ConnectionData) × (host_connect random addr session_id
          join_code username c
        ≡ done (packet, c'))
      × ((c' ≡ c) ⊎ Enters code random addr session_id (Request.connect join_code username) c c')
unfolding host_connect
host_connect-Enters code random addr session_id join_code username c has =
    elim (Option-cases c.other_addr) [
      | inr (a, full) ↦
          (Response.error full_game_session, c, rw (full, host_connect) refl, inl refl)
      | inl free ↦ elim (Bool-cases (text_eq join_code code)) [
        | inr wrong ↦ (
          Response.error invalid_join_code,
          c,
          rw (free, has, wrong, host_connect) refl,
          inl refl,
        )
        | inl right ↦ elim (Bool-cases (session_id == connect_session_id)) [
          | inr other ↦ (
            Response.error invalid_session_id,
            c,
            rw (free, has, right, other, host_connect) refl,
            inl refl,
          )
          | inl same ↦ (
            Response.connect white (unwrap_or c.my_username host_name),
            joined random addr username c,
            rw (free, has, right, same, host_connect) refl,
            inr (
              username,
              ap (λ t. Request.connect t username) (text_eq→≡ join_code code right),
              ground arith,
              free,
              refl,
            ),
          )
        ]
      ]
    ]

host_packet-Enters :
    (code : Bytes) (random : ℕ) (addr : SocketAddr) (session_id : ℕ) (packet : P2pRequestPacket)
    (p : Peer)
    → p.conn.join_code ≡ some code
    → (answer : P2pResponsePacket) × (p' : Peer) × (host_packet random addr session_id packet p
        ≡ done (answer, p'))
      × ((p'.conn ≡ p.conn) ⊎ Enters code random addr session_id packet p.conn p'.conn)
unfolding host_packet
host_packet-Enters code random addr session_id Request.ping p has = (_, p, refl, inl refl)
host_packet-Enters code random addr session_id (Request.connect join_code username) p has =
    let (answer, c, e, how) =
      host_connect-Enters code random addr session_id join_code username p.conn has in
    (answer, record p { conn = c }, rw e refl, how)
host_packet-Enters code random addr session_id Request.resync p has = (_, p, refl, inl refl)
host_packet-Enters code random addr session_id (Request.game_action action) p has =
    (_, record p { net = push_incoming_gameaction action p.net }, refl, inl refl)

pub host_request-Enters :
    (code : Bytes) (others : Net → Net) (random : ℕ) (addr : SocketAddr) (r : P2pRequest) (p : Peer)
    → p.conn.join_code ≡ some code
    → (p' : Peer) × (host_request others random addr r p ≡ done p')
      × ((p'.conn ≡ p.conn) ⊎ Enters code random addr r.session_id r.packet p.conn p'.conn)
unfolding host_request
host_request-Enters code others random addr r p has =
    let (answer, p', e, how) = host_packet-Enters code random addr r.session_id r.packet p has in
    let reply = response (record {
      session_id = p'.conn.session_id;
      transaction_id = r.transaction_id;
      packet = answer;
    }) in
    (record p' { net = (push_outgoing_queue others reply none p'.net).1 }, rw e refl, how)
