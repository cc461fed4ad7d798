-- ===== src/Network/Client/Addressing.antt =====
-- Whose datagrams a client reads.
use psychic_fiesta.Prelude.{Bool, true, false, not, Option, none, some, ◌≡◌, ◌≢◌, ◌↔◌, ◌⊎◌}
use psychic_fiesta.Prelude.{refl, sym, ap, arith, inl, inr, take, if◌then◌else◌, Bool-cases}
use psychic_fiesta.Prelude.Outcome.{done, panic, or_panic, ◌>>=◌}
use psychic_fiesta.Packet.Wire.{Bytes, Parsed, ok}
use psychic_fiesta.Packet.{P2pPacket, request, response}
use psychic_fiesta.Packet.Request.{P2pRequest}
use psychic_fiesta.Packet.Faults.{crashes, from_packet-panic}
use psychic_fiesta.Address.{SocketAddr, addr_eq, addr_eq_iff}
use psychic_fiesta.Network.{Peer, recieve_p2p_packet}
use psychic_fiesta.Network.Client.{client_request, client_receive, client_round}
use psychic_fiesta.Network.Host.Session.{Parsed-cases}
use mathlib.Core.Path.{subst}

-- A client that has a host drops every datagram from another address that the decoder does not
-- panic on.
pub client_round_strangers :
    (able : Bool) (bytes : Bytes) (addr other : SocketAddr) (p : Peer)
    → p.conn.other_addr ≡ some other
    → addr ≢ other
    → recieve_p2p_packet bytes ≢ Parsed.panic
    → client_round able (some (bytes, addr)) p ≡ done (none, p)
unfolding client_round
client_round_strangers able bytes addr other p has ne readable =
    elim (Parsed-cases (recieve_p2p_packet bytes)) [
      | inr (inr q) ↦ absurd (readable q)
      | inr (inl (e, q)) ↦ rw (q, client_round) refl
      | inl (packet, q) ↦ elim (Bool-cases (addr_eq addr other)) [
        | inl same ↦ absurd (ne ((addr_eq_iff addr other).0 same))
        | inr differs ↦ rw (q, has, differs, client_round) refl
      ]
    ]

client_receive-panic :
    (able : Bool) (addr : SocketAddr) (packet : P2pPacket) (p : Peer)
    → (client_receive able addr packet p ≡ panic)
      ↔ ((able ≡ false) × (r : P2pRequest) × (packet ≡ request r))
unfolding client_receive client_request
client_receive-panic true addr (request r) p = ((λ e. absurd (cc e)), (λ h. absurd (cc h.0)))
client_receive-panic false addr (request r) p = ((λ e. (refl, r, refl)), (λ h. refl))
client_receive-panic able addr (response r) p = ((λ e. absurd (cc e)), (λ h. absurd (cc h.2)))

-- A packet from `addr` makes a client panic that has `other` for its host's address.
abbrev IsFatal : Bool → SocketAddr → Option SocketAddr → P2pPacket → Type 0
IsFatal able addr other packet =
    (other ≡ none)
    ⊎ ((other ≡ some addr) × (able ≡ false) × (r : P2pRequest) × (packet ≡ request r))

guarded-panic :
    (able : Bool) (addr : SocketAddr) (other : Option SocketAddr) (packet : P2pPacket) (p : Peer)
    → ((or_panic other >>= λ o.
          if not (addr_eq addr o) then done (none, p) else client_receive able addr packet p)
        ≡ panic)
      ↔ IsFatal able addr other packet
guarded-panic able addr none packet p = ((λ e. inl refl), (λ h. refl))
guarded-panic able addr (some other) packet p = elim (Bool-cases (addr_eq addr other)) [
  | inl same ↦
      let here = (addr_eq_iff addr other).0 same in
      let (f, g) = client_receive-panic able addr packet p in
      (
        λ e. let (off, r, q) = f (rw same at e) in inr (ap some (sym here), off, r, q),
        λ h. elim h [ inl e ↦ absurd (cc e) | inr (_, off, r, q) ↦ rw same (g (off, r, q)) ],
      )
  | inr differs ↦ (
    λ e. absurd (cc (rw differs at e)),
    λ h. elim h [
      | inl e ↦ absurd (cc e)
      | inr (at, _, _, _) ↦ absurd (ground (arith, differs, addr_eq_iff addr other, at))
    ],
  )
]

-- The datagram makes the client panic: its first 1024 bytes make the decoder panic; or they are a
-- packet, and the client has no host; or they are a request of its host, and the socket does not send.
abbrev pub IsDeadly : Bool → Bytes → SocketAddr → Peer → Type 0
IsDeadly able bytes addr p =
    (crashes (take 1024 bytes) ≡ true)
    ⊎ ((packet : P2pPacket) × (recieve_p2p_packet bytes ≡ ok packet)
        × IsFatal able addr p.conn.other_addr packet)

-- A client's round panics on a datagram exactly if the datagram's first 1024 bytes make the decoder
-- panic; or they are a packet, whoever sent it, and the client has no host, since it was not given one
-- yet or lost it; or they are a request from its host, and the socket cannot send the response.
pub client_round-panic :
    (able : Bool) (bytes : Bytes) (addr : SocketAddr) (p : Peer)
    → (client_round able (some (bytes, addr)) p ≡ panic) ↔ IsDeadly able bytes addr p
unfolding client_round recieve_p2p_packet
client_round-panic able bytes addr p =
    let (f, g) = from_packet-panic (take 1024 bytes) in
    elim (Parsed-cases (recieve_p2p_packet bytes)) [
      | inl (packet, q) ↦
          let (f', g') = guarded-panic able addr p.conn.other_addr packet p in
          (
            λ e. inr (packet, q, f' (rw q at e)),
            λ h. elim h [
              | inl down ↦ absurd (cc (g down, q))
              | inr (packet', q', k) ↦
                  let same : packet' ≡ packet = cc (q, q') in
                  rw q (g' (subst (IsFatal able addr p.conn.other_addr) same k))
            ],
          )
      | inr (inl (err, q)) ↦ (
        λ e. absurd (cc (rw q at e)),
        λ h. elim h [
          | inl down ↦ absurd (cc (g down, q))
          | inr (packet', q', k) ↦ absurd (cc (q, q'))
        ],
      )
      | inr (inr q) ↦ ((λ e. inl (f q)), (λ h. rw q refl))
    ]
