-- ===== src/Network/Client/Reconnect.antt =====
-- How a client loses its host: pings that are not answered.
use psychic_fiesta.Prelude.{ℕ, zero, suc, ◌≤◌, false, none}
use psychic_fiesta.Prelude.{◌≡◌, refl, ap, ◌∙◌, arith}
use psychic_fiesta.Status.{ConnectionStatus, disconnected}
use psychic_fiesta.Status.{reconnecting, connected}
use psychic_fiesta.Network.{Peer}
use psychic_fiesta.Network.Client.{pings}
use psychic_fiesta.Network.Client.{ping_finish}

-- So many waits time out, one after the other.
unfoldable pub timeouts : ℕ → Peer → Peer
unfolding ping_finish
timeouts zero p = p
timeouts (suc n) p = ping_finish none (timeouts n p)

abbrev at_status : ConnectionStatus → Peer → Peer
at_status status p = record p { conn = record p.conn { status = status } }

timed_out_connected :
    (p : Peer) (ping : ℕ)
    → p.conn.status ≡ connected ping
    → ping_finish none p ≡ at_status (reconnecting 0) p
unfolding ping_finish
timed_out_connected p ping e = rw (e, ping_finish) refl

next_try :
    (p : Peer) (k : ℕ)
    → suc k ≤ 10
    → ping_finish none (at_status (reconnecting k) p) ≡ at_status (reconnecting (suc k)) p
unfolding ping_finish
next_try p k h = ground arith

timeouts_reconnecting :
    (p : Peer) (ping k : ℕ)
    → p.conn.status ≡ connected ping
    → k ≤ 10
    → timeouts (suc k) p ≡ at_status (reconnecting k) p
unfolding timeouts
timeouts_reconnecting p ping zero e h = timed_out_connected p ping e
timeouts_reconnecting p ping (suc k) e h =
    ap (ping_finish none) (timeouts_reconnecting p ping k e (omega arith)) ∙ next_try p k h

-- A connected client whose pings time out is reconnecting after the first time, with one try more
-- for each of up to ten further ones; after the twelfth it has no host, and no further ping is sent.
pub timeouts_lem :
    (p : Peer) (ping k : ℕ)
    → p.conn.status ≡ connected ping
    → k ≤ 10
    → (timeouts (suc k) p ≡ record p { conn = record p.conn { status = reconnecting k } })
      × (timeouts 12 p ≡ record p {
        conn = record p.conn { status = disconnected; other_addr = none; other_username = none };
      })
      × (pings (timeouts 12 p).conn ≡ false)
unfolding timeouts ping_finish
timeouts_lem p ping k e h =
    let last = ap (ping_finish none) (timeouts_reconnecting p ping 10 e (omega arith)) in
    (timeouts_reconnecting p ping k e h, last, ap (λ q. pings q.conn) last)
