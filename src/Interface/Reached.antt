-- ===== src/Interface/Reached.antt =====
-- The states of a client, and the call that connects it as a run of its steps.
use psychic_fiesta.Prelude.{ℕ, zero, suc, Option, none, some, ◌≡◌, refl, sym}
use psychic_fiesta.Prelude.Outcome.{Outcome}
use psychic_fiesta.Prelude.Holds.{Holds, Holds-bind, Holds-done}
use psychic_fiesta.Packet.Wire.{Bytes}
use psychic_fiesta.Lan.{Hex, hex_decode_ip}
use psychic_fiesta.Queue.{Net}
use psychic_fiesta.Network.{Peer}
use psychic_fiesta.Interface.{send_join_request, check_for_connection_resp, Reply}
use psychic_fiesta.Interface.{get_next_game_action, unwrap}
use psychic_fiesta.Interface.{check_rounds, or_check, or_join, join_rounds, connect_to_host_loop}
use psychic_fiesta.Interface.Hosting.{handle_outgoing_queue-conn, send_game_action-conn}
use psychic_fiesta.Interface.Playing.{ClientLoop, ClientStep, ClientReach, ask, starts, later, Kept}
use psychic_fiesta.Interface.Playing.{
  opens, asks, requests, checks, receives, sends, ticks, ends_wait,
}
use psychic_fiesta.Interface.Playing.{acts, takes, names}
use psychic_fiesta.Interface.Kept.{ping_finish-Kept, check-Kept, start_lan_client-Kept, Asked-named}
use psychic_fiesta.Interface.Kept.{send_join_request-conn, ping_start-Kept, client_round-conn}
use mathlib.Core.Path.{subst}

abbrev pub KeptLoop : ClientLoop → Type 0
KeptLoop h = Kept h.waits_for h.peer.conn

-- A step that leaves the connection and the wait as they are.
same-Kept :
    (h h' : ClientLoop) (p : Peer)
    → h' ≡ record h { peer = p }
    → p.conn ≡ h.peer.conn
    → KeptLoop h
    → KeptLoop h'
same-Kept h h' p q e k = subst KeptLoop (sym q) (subst (Kept h.waits_for) (sym e) k)

ClientStep-Kept : {h h' : ClientLoop} → ClientStep h h' → KeptLoop h → KeptLoop h'
unfolding get_next_game_action
ClientStep-Kept {h} (opens m p e q) k =
    subst KeptLoop (sym q) (Holds-done _ _ p (start_lan_client-Kept h.waits_for m h.peer k) e)
ClientStep-Kept {h} (asks host_addr join_code username q) (hosted, wait, _) =
    subst KeptLoop (sym q) (hosted, wait, (tt, tt))
ClientStep-Kept {h} {h'} (requests hex others fuel draw join_code username id p e q) k =
    same-Kept h h' p q
      (Holds-done (λ r. r.1.conn ≡ h.peer.conn) _ (id, p)
        (send_join_request-conn hex others fuel draw join_code username h.peer) e)
      k
ClientStep-Kept {h} (checks others id q) k =
    subst KeptLoop (sym q) (check-Kept h.waits_for others id h.peer k)
ClientStep-Kept {h} {h'} (receives able d d' p e q) k =
    same-Kept h h' p q
      (Holds-done (λ r. r.1.conn ≡ h.peer.conn) _ (d', p) (client_round-conn able d h.peer) e) k
ClientStep-Kept {h} {h'} (sends able d p e q) k =
    same-Kept h h' p q
      (Holds-done (λ r. r.1.conn ≡ h.peer.conn) _ (d, p) (handle_outgoing_queue-conn able h.peer) e)
      k
ClientStep-Kept {h} (ticks others fuel draw id p idle e q) k = subst KeptLoop (sym q) (
    Holds-done (λ r. Kept r.0 r.1.conn) _ (id, p)
      (ping_start-Kept others fuel draw h.peer (subst (λ w. Kept w h.peer.conn) idle k)) e)
ClientStep-Kept {h} (ends_wait id answer waits q) k =
    subst KeptLoop (sym q)
      (ping_finish-Kept id answer h.peer (subst (λ w. Kept w h.peer.conn) waits k))
ClientStep-Kept {h} {h'} (acts others fuel draw action closure p e q) k =
    same-Kept h h' p q
      (Holds-done (λ p'. p'.conn ≡ h.peer.conn) _ p
        (send_game_action-conn others fuel draw action closure h.peer) e)
      k
ClientStep-Kept {h} {h'} (takes q) k = subst KeptLoop (sym q) k
ClientStep-Kept {h} (names name q) (hosted, wait, asked) = subst KeptLoop (sym q) (
  hosted,
  wait,
  Asked-named h.peer.conn.other_addr h.peer.conn.join_code h.peer.conn.my_username name asked,
)

-- In every state that the process of a client reaches: while the status is connected or reconnecting,
-- and while a ping is waited for, the host's name is known; the tries to reconnect are ten at most,
-- so that they fit their byte; and whoever has an address to send to has a join code and a name.
pub ClientReach-Kept : {h : ClientLoop} → ClientReach h → Kept h.waits_for h.peer.conn
ClientReach-Kept (starts q) = subst KeptLoop (sym q) (tt, tt, tt)
ClientReach-Kept (later r st) = ClientStep-Kept st (ClientReach-Kept r)

-- The process is in a state that it reaches, whatever its ping task waits for.
abbrev pub InReach : Peer → Type 0
InReach p = (waits_for : Option ℕ) × ClientReach (record { peer = p; waits_for = waits_for })

or_check-InReach :
    (out : Option Reply × Peer) (next : Peer → Option Reply × Peer)
    → InReach out.1
    → ((p : Peer) → InReach p → InReach (next p).1)
    → InReach (or_check out next).1
or_check-InReach (some reply, p) next r k = r
or_check-InReach (none, p) next r k = k p r

or_join-InReach :
    (out : Option Reply × Peer) (next : Peer → Outcome (Reply × Peer))
    → InReach out.1
    → ((p : Peer) → InReach p → Holds (λ r. InReach r.1) (next p))
    → Holds (λ r. InReach r.1) (or_join out next)
or_join-InReach (some reply, p) next r k = r
or_join-InReach (none, p) next r k = k p r

module _ (hex : Hex) (others : ℕ → Net → Net) (fuel : ℕ) where
  check_rounds-InReach :
      (n : ℕ) (tasks : ℕ → Peer → Peer)
      → ((j : ℕ) (p : Peer) → InReach p → InReach (tasks j p))
      → (id : ℕ) (p : Peer) → InReach p
      → InReach (check_rounds n tasks (others 0) id p).1
  unfolding check_rounds
  check_rounds-InReach zero tasks kept id p r = r
  check_rounds-InReach (suc n) tasks kept id p r =
      let (w, r') = kept 0 p r in
      or_check-InReach (check_for_connection_resp (others 0) id (tasks 0 p))
        (check_rounds n (λ j. tasks (suc j)) (others 0) id)
        (w, later r' (checks (others 0) id refl))
        (check_rounds-InReach n (λ j. tasks (suc j)) (λ j. kept (suc j)) id)

  join_rounds-InReach :
      (rounds : ℕ) (tasks : ℕ → ℕ → Peer → Peer)
      → ((i j : ℕ) (p : Peer) → InReach p → InReach (tasks i j p))
      → (draw : ℕ → ℕ → ℕ) (join_code username : Bytes) (p : Peer) → InReach p
      → Holds
          (λ out. InReach out.1)
          (join_rounds rounds hex tasks others fuel draw join_code username p)
  unfolding join_rounds
  join_rounds-InReach zero tasks kept draw join_code username p r = tt
  join_rounds-InReach (suc rounds) tasks kept draw join_code username p (w, r) =
      Holds-bind _ (send_join_request hex others fuel (draw 0) join_code username p) _
        (λ (id, p') e.
          or_join-InReach (check_rounds 10 (tasks 0) (others 0) id p') _
            (check_rounds-InReach 10 (tasks 0) (kept 0) id p'
              (w, later r (requests hex others fuel (draw 0) join_code username id p' e refl)))
            (join_rounds-InReach rounds (λ i. tasks (suc i)) (λ i. kept (suc i)) (λ i. draw (suc i))
              join_code username))

  -- The call that connects is a run of such steps, if what the tasks do meanwhile is: where it returns,
  -- the process is in a state that it reaches.
  pub connect_to_host_loop-InReach :
      (rounds : ℕ) (tasks : ℕ → ℕ → Peer → Peer)
      → ((i j : ℕ) (p : Peer) → InReach p → InReach (tasks i j p))
      → (draw : ℕ → ℕ → ℕ) (join_code username : Bytes) (p : Peer) → InReach p
      → Holds
          (λ out. InReach out.1)
          (connect_to_host_loop rounds hex tasks others fuel draw join_code username p)
  unfolding connect_to_host_loop
  connect_to_host_loop-InReach rounds tasks kept draw join_code username p (w, r) =
      Holds-bind _ (unwrap (hex_decode_ip hex join_code)) _ (λ host_addr _.
        join_rounds-InReach rounds tasks kept draw join_code username
          (ask host_addr join_code username p)
          (w, later r (asks host_addr join_code username refl)))
