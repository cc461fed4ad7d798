-- ===== src/Lan/Ports.antt =====
-- The port that a host or client takes, and its local address.
use psychic_fiesta.Prelude.{ℕ, zero, suc, ◌+◌, ◌≤◌, ◌<◌, Bool, true, false, Option, none, some}
use psychic_fiesta.Prelude.{List, [], ◌∷◌, ◌≡◌, ◌≢◌, ◌⊎◌, inl, inr, refl, arith}
use psychic_fiesta.Prelude.{Bool-cases, Option-cases}
use psychic_fiesta.Address.{IpAddr, v4, v6}
use psychic_fiesta.Lan.{ok, err, undefined, port_binding_error, port_loop, get_available_port}
use psychic_fiesta.Lan.{Interface, is_v4, find_hamachi, found_ip, v4_of, get_local_ip}

-- None of the `n` ports from `port` on can be bound.
unfoldable pub AllBusy : (ℕ → Bool) → ℕ → ℕ → Type 0
AllBusy bind zero port = Unit
AllBusy bind (suc n) port = (bind port ≡ false) × AllBusy bind n (port + 1)

port_loop-first :
    (bind : ℕ → Bool) (n port : ℕ)
    → ((k : ℕ) × (k < n)
        × (port_loop bind n port ≡ ok (port + k))
        × (bind (port + k) ≡ true)
        × AllBusy bind k port)
      ⊎ ((port_loop bind n port ≡ err port_binding_error) × AllBusy bind n port)
unfolding port_loop AllBusy
port_loop-first bind zero port = inr (refl, tt)
port_loop-first bind (suc n) port =
    let here : port + 0 ≡ port = omega arith in
    elim (Bool-cases (bind port)) [
      | inl free ↦ inl (0, omega arith, rw (free, here) refl, rw here free, tt)
      | inr busy ↦ elim (port_loop-first bind n (port + 1)) [
        | inl (k, lt, found, free, before) ↦
            let there : port + suc k ≡ port + 1 + k = omega arith in
            inl (suc k, omega arith, rw (busy, there) found, rw there free, (busy, before))
        | inr (e, all) ↦ inr (rw busy e, (busy, all))
      ]
    ]

-- The port is the first of 6000 to 7000 that can be bound; if none of them can, the call fails.
pub get_available_port_first :
    (bind : ℕ → Bool)
    → ((k : ℕ) × (k ≤ 1000)
        × (get_available_port bind ≡ ok (6000 + k))
        × (bind (6000 + k) ≡ true)
        × AllBusy bind k 6000)
      ⊎ ((get_available_port bind ≡ err port_binding_error) × AllBusy bind 1001 6000)
unfolding get_available_port
get_available_port_first bind = elim (port_loop-first bind 1001 6000) [
  | inl (k, lt, found, free, before) ↦ inl (k, omega arith, found, free, before)
  | inr q ↦ inr q
]

is_v4-found : (ip : IpAddr) → is_v4 ip ≡ true → found_ip ip ≢ undefined
is_v4-found (v4 a) h = λ e. cc
is_v4-found (v6 a) h = cc

find_hamachi-v4 :
    (netifas : List Interface) (ip : IpAddr) → find_hamachi netifas ≡ some ip → is_v4 ip ≡ true
unfolding find_hamachi
find_hamachi-v4 [] ip e = cc
find_hamachi-v4 (i ∷ rest) ip e = ground (arith, find_hamachi-v4 rest ip)

local_v4 : (local_ip : Option IpAddr) → v4_of local_ip ≢ undefined
local_v4 none = λ e. cc
local_v4 (some (v4 a)) = λ e. cc
local_v4 (some (v6 a)) = λ e. cc

-- The `unreachable_unchecked` is never reached, whatever interfaces there are.
pub get_local_ip-defined :
    (netifas : Option (List Interface)) (local_ip : Option IpAddr)
    → get_local_ip netifas local_ip ≢ undefined
unfolding get_local_ip
get_local_ip-defined none local_ip = λ e. cc
get_local_ip-defined (some netifas) local_ip = elim (Option-cases (find_hamachi netifas)) [
  | inl e ↦ rw (e, get_local_ip) (local_v4 local_ip)
  | inr (ip, e) ↦ rw (e, get_local_ip) (is_v4-found ip (find_hamachi-v4 netifas ip e))
]
