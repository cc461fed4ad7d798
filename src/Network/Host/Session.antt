-- ===== src/Network/Host/Session.antt =====
-- Who is the host's client: it enters with the join code, and leaves by its silence.
use psychic_fiesta.Prelude.{ℕ, ◌-◌, ◌≤◌, ◌&&◌, Option, none, some}
use psychic_fiesta.Prelude.{◌≡◌, ◌≢◌, ◌⊎◌, inl, inr, refl, ap, ◌∙◌, arith, leb}
use psychic_fiesta.Prelude.{Bool-cases}
use psychic_fiesta.Prelude.Outcome.{done}
use psychic_fiesta.Packet.Wire.{Bytes, Parsed, ok, err}
use psychic_fiesta.Packet.Wire
use psychic_fiesta.Packet.{P2pPacket, request, response}
use psychic_fiesta.Packet.Request.{P2pRequest}
use psychic_fiesta.Packet.Response
use psychic_fiesta.Packet.Response.{P2pResponsePacket}
use psychic_fiesta.Address.{SocketAddr}
use psychic_fiesta.Status.{ConnectionData}
use psychic_fiesta.Queue.{Net, is_some, check_transaction_id}
use psychic_fiesta.Network.{Datagram, recieve_p2p_packet}
use psychic_fiesta.Network.Host.{HostLoop}
use psychic_fiesta.Network.Host.{disconnect_time_ms, forget_client, host_expire, host_response}
use psychic_fiesta.Network.Host.{host_receive, host_round}
use psychic_fiesta.Network.Host.Entering.{Enters, host_request-Enters}

host_response-conn :
    (r : Response.P2pResponse) (h : HostLoop) → (host_response r h).peer.conn ≡ h.peer.conn
host_response-conn r h = elim (Bool-cases (check_transaction_id r.transaction_id h.peer.net)) [
  | inl q ↦ rw q refl
  | inr q ↦ rw q refl
]

-- A datagram that is read as a request to connect with the host's code and the session id for that.
abbrev pub Admitted : Bytes → ℕ → Option Datagram → ConnectionData → ConnectionData → Type 0
Admitted code random none c c' = ⊥
Admitted code random (some (bytes, addr)) c c' =
    (r : P2pRequest) × (recieve_p2p_packet bytes ≡ ok (request r))
    × Enters code random addr r.session_id r.packet c c'

-- The three ends of the decoder.
pub Parsed-cases {ℓ} :
    {A : Type ℓ} (q : Parsed A)
    → ((a : A) × (q ≡ ok a)) ⊎ (((e : Wire.PacketError) × (q ≡ err e)) ⊎ (q ≡ Parsed.panic))
Parsed-cases (ok a) = inl (a, refl)
Parsed-cases (err e) = inr (inl (e, refl))
Parsed-cases Parsed.panic = inr (inr refl)

-- The datagram, if there is one, does not make the decoder panic.
abbrev pub IsReadable : Option Datagram → Type 0
IsReadable none = Unit
IsReadable (some (bytes, addr)) = recieve_p2p_packet bytes ≢ Parsed.panic

-- The connection after the first test of a round: the client is forgotten only after its silence.
abbrev pub Expired : ℕ → HostLoop → ConnectionData → Type 0
Expired start h c =
    (c ≡ h.peer.conn) ⊎ ((5000 ≤ start - h.time_since_ping) × (c ≡ forget_client h.peer.conn))

host_expire-Expired : (start : ℕ) (h : HostLoop) → Expired start h (host_expire start h).peer.conn
unfolding host_expire
host_expire-Expired start h =
    elim (Bool-cases
      (leb disconnect_time_ms (start - h.time_since_ping) && is_some h.peer.conn.other_addr)) [
        | inl q ↦ rw (q, host_expire) (inr (ground arith, refl))
        | inr q ↦ rw (q, host_expire) (inl refl)
      ]

Expired-join_code :
    (start : ℕ) (h : HostLoop) (c : ConnectionData)
    → Expired start h c
    → c.join_code ≡ h.peer.conn.join_code
Expired-join_code start h c (inl e) = ap (λ d. d.join_code) e
Expired-join_code start h c (inr (_, e)) = ap (λ d. d.join_code) e

host_receive-Admitted :
    (code : Bytes) (others : Net → Net) (random end : ℕ) (bytes : Bytes) (addr : SocketAddr)
    (packet : P2pPacket) (h : HostLoop)
    → recieve_p2p_packet bytes ≡ ok packet
    → h.peer.conn.join_code ≡ some code
    → (h' : HostLoop) × (host_receive others random end addr packet h ≡ done h')
      × ((h'.peer.conn ≡ h.peer.conn)
          ⊎ Admitted code random (some (bytes, addr)) h.peer.conn h'.peer.conn)
unfolding host_receive
host_receive-Admitted code others random end bytes addr (request r) h read has =
    let (p, e, how) = host_request-Enters code others random addr r h.peer has in
    (
      record { peer = p; time_since_ping = end },
      rw e refl,
      (elim how [ inl same ↦ inl same | inr enters ↦ inr (r, read, enters) ]),
    )
host_receive-Admitted code others random end bytes addr (response r) h read has =
    (host_response r h, refl, inl (host_response-conn r h))

host_round-none :
    (code : Bytes) (others : Net → Net) (random start end : ℕ) (h : HostLoop)
    → (h' : HostLoop) × (host_round others random start none end h ≡ done h')
      × (c : ConnectionData) × Expired start h c
      × ((h'.peer.conn ≡ c) ⊎ Admitted code random none c h'.peer.conn)
unfolding host_round
host_round-none code others random start end h = (
  host_expire start h,
  refl,
  (host_expire start h).peer.conn,
  host_expire-Expired start h,
  inl refl,
)

-- A host with a join code handles every datagram that the decoder does not panic on. Between the
-- connection before the round and after it stands `c`: the first, or that without its client, after
-- five seconds with no request. The last is `c`, or `c` with a client entered: `c` has none, and the
-- datagram is a request to connect, with the join code and the session id for connecting, from the
-- address that becomes the client's.
pub host_round-Admitted :
    (code : Bytes) (others : Net → Net) (random start end : ℕ) (d : Option Datagram) (h : HostLoop)
    → h.peer.conn.join_code ≡ some code
    → IsReadable d
    → (h' : HostLoop) × (host_round others random start d end h ≡ done h')
      × (c : ConnectionData) × Expired start h c
      × ((h'.peer.conn ≡ c) ⊎ Admitted code random d c h'.peer.conn)
unfolding host_round
host_round-Admitted code others random start end none h has readable =
    host_round-none code others random start end h
host_round-Admitted code others random start end (some (bytes, addr)) h has readable =
    let h₀ = host_expire start h in
    let gone = host_expire-Expired start h in
    elim (Parsed-cases (recieve_p2p_packet bytes)) [
      | inl (packet, read) ↦
          let (h', e, how) =
            host_receive-Admitted code others random end bytes addr packet h₀ read
              (Expired-join_code start h h₀.peer.conn gone ∙ has) in
          (h', rw (read, host_round) e, h₀.peer.conn, gone, how)
      | inr (inl (e, read)) ↦ (h₀, rw (read, host_round) refl, h₀.peer.conn, gone, inl refl)
      | inr (inr read) ↦ absurd (readable read)
    ]
