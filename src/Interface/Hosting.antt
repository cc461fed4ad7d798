-- ===== src/Interface/Hosting.antt =====
-- Every state that the process of a host can reach.
use psychic_fiesta.Prelude.{ℕ, suc, Bool, true, false, Option, none, some}
use psychic_fiesta.Prelude.{◌≡◌, ◌≢◌, inl, inr, refl, sym, ap, ◌∙◌}
use psychic_fiesta.Prelude.Outcome.{done}
use psychic_fiesta.Prelude.Holds.{Holds, Holds-bind, Holds-done}
use psychic_fiesta.Game.{GameAction}
use psychic_fiesta.Packet.Wire.{Bytes, Parsed}
use psychic_fiesta.Packet.{P2pPacket}
use psychic_fiesta.Address.{v4, SocketAddr}
use psychic_fiesta.Status.{ConnectionData, connect_session_id, initial_connection}
use psychic_fiesta.Status
use psychic_fiesta.Lan.{Hex, get_local_ip, hex_encode_ip}
use psychic_fiesta.Queue.{Net, Closure, pop_outgoing_queue, new_transaction_id}
use psychic_fiesta.Network.{Peer, initial_peer, Datagram, recieve_p2p_packet, handle_outgoing_queue}
use psychic_fiesta.Network.{send_first, send_to}
use psychic_fiesta.Network.Host.{HostLoop, host_round}
use psychic_fiesta.Network.Host.Session.{Admitted, Expired, IsReadable, host_round-Admitted}
use psychic_fiesta.Interface.{Machine, bind_socket, start_lan_host, send_game_action, unwrap}
use psychic_fiesta.Interface.{get_next_game_action, set_my_username}
use mathlib.Core.Path.{subst}

-- What the process does after `start_lan_host`: a round of either loop, or a call of the game.
pub data HostStep (h h' : HostLoop) : Type 0 where
  receives :
      (others : Net → Net) (random start end : ℕ) (d : Option Datagram)
      → host_round others random start d end h ≡ done h'
      → HostStep h h'
  sends :
      (ok : Bool) (d : Option Datagram) (p : Peer)
      → handle_outgoing_queue ok h.peer ≡ done (d, p)
      → h' ≡ record h { peer = p }
      → HostStep h h'
  acts :
      (others : ℕ → Net → Net) (fuel : ℕ) (draw : ℕ → ℕ) (action : GameAction) (closure : Closure)
      (p : Peer)
      → send_game_action others fuel draw action closure h.peer ≡ done p
      → h' ≡ record h { peer = p }
      → HostStep h h'
  takes : h' ≡ record h { peer = (get_next_game_action h.peer).1 } → HostStep h h'
  names : (name : Bytes) → h' ≡ record h { peer = set_my_username name h.peer } → HostStep h h'

-- The states reached from the start of a host whose join code is `code`.
pub data HostReach (code : Bytes) : HostLoop → Type 0 where
  starts :
      {h : HostLoop} (hex : Hex) (m : Machine)
      → start_lan_host hex m initial_peer ≡ done (code, h.peer)
      → HostReach code h
  later : {g h : HostLoop} → HostReach code g → HostStep g h → HostReach code h

done_inj {ℓ} : {A : Type ℓ} {a b : A} → done a ≡ done b → a ≡ b
done_inj e = cc

abbrev pub ClientOf : Option SocketAddr → ConnectionData → Type 0
ClientOf none c = (c.other_username ≡ none) × (c.session_id ≡ connect_session_id)
ClientOf (some addr) c =
    (Status.is_connected c.status ≡ true) × (name : Bytes) × (c.other_username ≡ some name)

-- The join code is still there. With no client there is no name of one, and the session id is that
-- for connecting; with a client the status is connected, and its name is known.
abbrev pub Session : Bytes → ConnectionData → Type 0
Session code c = (c.join_code ≡ some code) × ClientOf c.other_addr c

Expired-Session :
    (code : Bytes) (start : ℕ) (h : HostLoop) (c : ConnectionData)
    → Expired start h c
    → Session code h.peer.conn
    → Session code c
Expired-Session code start h c (inl e) s = subst (Session code) (sym e) s
Expired-Session code start h c (inr (_, e)) s = subst (Session code) (sym e) (s.0, (refl, refl))

Admitted-Session :
    (code : Bytes) (random : ℕ) (d : Option Datagram) (c c' : ConnectionData)
    → Admitted code random d c c'
    → Session code c
    → Session code c'
Admitted-Session code random none c c' a s = absurd a
Admitted-Session code random (some (bytes, addr)) c c' (r, _, (name, _, _, _, e)) s =
    subst (Session code) (sym e) (s.0, (refl, name, refl))

round_panic :
    (others : Net → Net) (random start end : ℕ) (bytes : Bytes) (addr : SocketAddr) (h : HostLoop)
    {h' : HostLoop}
    → recieve_p2p_packet bytes ≡ Parsed.panic
    → host_round others random start (some (bytes, addr)) end h ≢ done h'
unfolding host_round
round_panic others random start end bytes addr h q = rw (q, host_round) (λ e. cc)

done-IsReadable :
    (others : Net → Net) (random start end : ℕ) (d : Option Datagram) (h h' : HostLoop)
    → host_round others random start d end h ≡ done h'
    → IsReadable d
unfolding host_round
done-IsReadable others random start end none h h' e = tt
done-IsReadable others random start end (some (bytes, addr)) h h' e =
    λ q. round_panic others random start end bytes addr h q e

round-Session :
    (code : Bytes) (others : Net → Net) (random start end : ℕ) (d : Option Datagram)
    (h h' : HostLoop)
    → host_round others random start d end h ≡ done h'
    → Session code h.peer.conn
    → Session code h'.peer.conn
round-Session code others random start end d h h' e s =
    let (g, e', c, gone, how) =
      host_round-Admitted code others random start end d h s.0
        (done-IsReadable others random start end d h h' e) in
    let same : h' ≡ g = done_inj (sym e ∙ e') in
    let middle = Expired-Session code start h c gone s in
    subst (λ k. Session code k.peer.conn) (sym same)
      (elim how [
        | inl k ↦ subst (Session code) (sym k) middle
        | inr a ↦ Admitted-Session code random d c g.peer.conn a middle
      ])

send_first-conn :
    (able : Bool) (addr : SocketAddr) (popped : Option (P2pPacket × ℕ) × Net) (p : Peer)
    → Holds (λ r. r.1.conn ≡ p.conn) (send_first able addr popped p)
send_first-conn able addr (none, n) p = refl
send_first-conn true addr (some (packet, id), n) p = refl
send_first-conn false addr (some (packet, id), n) p = tt

send_to-conn :
    (able : Bool) (to : Option SocketAddr) (p : Peer)
    → Holds (λ r. r.1.conn ≡ p.conn) (send_to able to p)
send_to-conn able none p = refl
send_to-conn able (some addr) p = send_first-conn able addr (pop_outgoing_queue p.net) p

pub handle_outgoing_queue-conn :
    (able : Bool) (p : Peer) → Holds (λ r. r.1.conn ≡ p.conn) (handle_outgoing_queue able p)
unfolding handle_outgoing_queue
handle_outgoing_queue-conn able p = send_to-conn able p.conn.other_addr p

pub send_game_action-conn :
    (others : ℕ → Net → Net) (fuel : ℕ) (draw : ℕ → ℕ) (action : GameAction) (closure : Closure)
    (p : Peer)
    → Holds (λ p'. p'.conn ≡ p.conn) (send_game_action others fuel draw action closure p)
unfolding send_game_action
send_game_action-conn others fuel draw action closure p =
    Holds-bind (λ p'. p'.conn ≡ p.conn) (new_transaction_id fuel (λ i. others (suc i)) draw p.net) _
      (λ id e. refl)

start_lan_host-Session :
    (hex : Hex) (m : Machine)
    → Holds (λ r. Session r.0 r.1.conn) (start_lan_host hex m initial_peer)
unfolding start_lan_host
start_lan_host-Session hex m =
    Holds-bind (λ r. Session r.0 r.1.conn) (bind_socket m) _
      (λ port _.
        Holds-bind (λ r. Session r.0 r.1.conn) (unwrap (get_local_ip m.netifas m.local_ip)) _
          (λ local_ip _.
            Holds-bind (λ r. Session r.0 r.1.conn)
              (unwrap (hex_encode_ip hex (record { ip = v4 local_ip; port = port }))) _
              (λ encoded_ip _. (refl, (refl, refl)))))

ClientOf-named :
    (name : Bytes) (c : ConnectionData) (to : Option SocketAddr)
    → ClientOf to c
    → ClientOf to (Status.set_my_username name c)
ClientOf-named name c none s = s
ClientOf-named name c (some addr) s = s

HostStep-Session :
    (code : Bytes) {g h : HostLoop}
    → HostStep g h
    → Session code g.peer.conn
    → Session code h.peer.conn
unfolding get_next_game_action
HostStep-Session code {g} {h} (receives others random start end d e) s =
    round-Session code others random start end d g h e s
HostStep-Session code {g} (sends able d p e q) s =
    let same =
      Holds-done (λ r. r.1.conn ≡ g.peer.conn) (handle_outgoing_queue able g.peer) (d, p)
        (handle_outgoing_queue-conn able g.peer) e in
    subst (Session code) (sym (ap (λ k. k.peer.conn) q ∙ same)) s
HostStep-Session code {g} (acts others fuel draw action closure p e q) s =
    let same =
      Holds-done (λ p'. p'.conn ≡ g.peer.conn)
        (send_game_action others fuel draw action closure g.peer) p
        (send_game_action-conn others fuel draw action closure g.peer) e in
    subst (Session code) (sym (ap (λ k. k.peer.conn) q ∙ same)) s
HostStep-Session code (takes q) s = subst (λ k. Session code k.peer.conn) (sym q) s
HostStep-Session code {g} (names name q) s =
    subst (λ k. Session code k.peer.conn) (sym q)
      (s.0, ClientOf-named name g.peer.conn g.peer.conn.other_addr s.1)

-- In every state that the process of a host reaches, its join code is the one it was started with;
-- with no client there is no client's name, and the session id is that for connecting; with a client
-- the status is connected, and the client's name is known.
pub HostReach-Session : (code : Bytes) {h : HostLoop} → HostReach code h → Session code h.peer.conn
HostReach-Session code {h} (starts hex m e) =
    Holds-done (λ r. Session r.0 r.1.conn) (start_lan_host hex m initial_peer) (code, h.peer)
      (start_lan_host-Session hex m) e
HostReach-Session code (later r st) = HostStep-Session code st (HostReach-Session code r)
