-- ===== src/Packet/Bodies.antt =====
-- What the decoders of packets' bodies accept.
use psychic_fiesta.Prelude.{ℕ, zero, suc, ◌≤◌, ◌<◌, Bool, true, false, not, none, some}
use psychic_fiesta.Prelude.{[], ◌∷◌, ◌≡◌, ◌≢◌, ◌⊎◌, inl, inr, refl, ap, arith}
use psychic_fiesta.Prelude.{All, length, take, drop, ltb, leb, ◌==◌, if◌then◌else◌}
use psychic_fiesta.Game.{GameAction, move_piece, stalemate, surrender}
use psychic_fiesta.Packet.Wire.{Bytes, Parsed, ok, err, panic, ◌>>=◌, IsByte, byte_at, slice}
use psychic_fiesta.Packet.Wire.{slice_from}
use psychic_fiesta.Packet.Text.{IsText, from_utf8, is_utf8}
use psychic_fiesta.Packet.Piece.{error_try_from, color_try_from}
use psychic_fiesta.Packet.Action
use psychic_fiesta.Packet.Request
use psychic_fiesta.Packet.Request.{P2pRequestPacket, P2pRequest}
use psychic_fiesta.Packet.Response
use psychic_fiesta.Packet.Response.{P2pResponsePacket, P2pResponse}
use psychic_fiesta.Packet.RoundTrip.{
  IsCompactList, IsCompact, IsSendableRequest, IsSendableResponse,
}

-- What is accepted is as `P` says.
abbrev pub Accepts : {A : Type 0} → (A → Type 0) → Parsed A → Type 0
Accepts P (ok a) = P a
Accepts P (err e) = Unit
Accepts P panic = Unit

Accepts-bind :
    {A B : Type 0} (P : A → Type 0) (Q : B → Type 0) (r : Parsed A) (f : A → Parsed B)
    → Accepts P r
    → ((a : A) → P a → Accepts Q (f a))
    → Accepts Q (r >>= f)
Accepts-bind P Q (ok a) f h k = k a h
Accepts-bind P Q (err e) f h k = tt
Accepts-bind P Q panic f h k = tt

Accepts-any : {A : Type 0} (r : Parsed A) → Accepts (λ _. Unit {0}) r
Accepts-any (ok a) = tt
Accepts-any (err e) = tt
Accepts-any panic = tt

pub Accepts-if :
    {A : Type 0} (P : A → Type 0) (b : Bool) (x y : Parsed A)
    → (b ≡ true → Accepts P x)
    → (b ≡ false → Accepts P y)
    → Accepts P (if b then x else y)
Accepts-if P true x y h k = h refl
Accepts-if P false x y h k = k refl

All-drop : (n : ℕ) (xs : Bytes) → All IsByte xs → All IsByte (drop n xs)
All-drop zero xs h = h
All-drop (suc n) [] h = tt
All-drop (suc n) (x ∷ xs) h = All-drop n xs h.1

length-take : (n : ℕ) (xs : Bytes) → n ≤ length xs → length (take n xs) ≡ n
length-take zero xs h = refl
length-take (suc n) [] h = absurd (omega arith)
length-take (suc n) (x ∷ xs) h = ap suc (length-take n xs (omega arith))

long_tail : (packet : Bytes) → 14 ≤ length packet → 12 ≤ length (drop 1 packet)
long_tail [] h = absurd (omega arith)
long_tail (x ∷ packet) h = omega arith

drop-ne_nil : (n : ℕ) (xs : Bytes) → n < length xs → drop n xs ≢ []
drop-ne_nil zero [] h = absurd (omega arith)
drop-ne_nil zero (x ∷ xs) h = λ e. cc
drop-ne_nil (suc n) [] h = absurd (omega arith)
drop-ne_nil (suc n) (x ∷ xs) h = drop-ne_nil n xs (omega arith)

from_utf8-IsText :
    (P : Bytes → Type 0) (bs : Bytes) → P bs → Accepts (λ t. IsText t × P t) (from_utf8 bs)
from_utf8-IsText P bs h = Accepts-if _ (is_utf8 bs) _ _ (λ t. (t, h)) (λ _. tt)

captured-IsCompact :
    (rest : Bytes) (b : Bool)
    → All IsByte rest
    → (b ≡ true → rest ≢ [])
    → IsCompactList (if b then some rest else none)
captured-IsCompact rest true h ne = (h, ne refl)
captured-IsCompact rest false h ne = tt

move-IsCompact :
    (packet : Bytes) → All IsByte packet → Accepts IsCompact (Action.move_from_packet packet)
unfolding Action.move_from_packet
move-IsCompact [] h = tt
move-IsCompact (a ∷ []) h = tt
move-IsCompact (a ∷ b ∷ []) h = tt
move-IsCompact (a ∷ b ∷ c ∷ []) h = tt
move-IsCompact (a ∷ b ∷ c ∷ d ∷ rest) (_, (hb, (hc, (_, hr)))) =
    Accepts-if IsCompact (ltb (length (a ∷ b ∷ c ∷ d ∷ rest)) 3) _ _ (λ _. tt)
      (λ _. (
        hb,
        hc,
        captured-IsCompact rest (ltb 4 (length (a ∷ b ∷ c ∷ d ∷ rest))) hr
            (λ long. drop-ne_nil 0 rest (ground (arith, long))),
      ))

arm-IsCompact :
    (action : GameAction) (packet : Bytes)
    → All IsByte packet
    → Accepts IsCompact (Action.arm action packet)
arm-IsCompact (move_piece m) packet h = move-IsCompact packet h
arm-IsCompact stalemate packet h = Accepts-if IsCompact (length packet == 1) _ _ (λ _. tt) (λ _. tt)
arm-IsCompact surrender packet h = Accepts-if IsCompact (length packet == 1) _ _ (λ _. tt) (λ _. tt)

action-IsCompact :
    (packet : Bytes) → All IsByte packet → Accepts IsCompact (Action.from_packet packet)
unfolding Action.from_packet
action-IsCompact [] h = tt
action-IsCompact (b ∷ bs) h =
    Accepts-bind _ IsCompact (Action.from_u8 b) _ (Accepts-any (Action.from_u8 b))
      (λ kind _. arm-IsCompact kind (b ∷ bs) h)

unwrap-Accepts :
    {A : Type 0} (P : A → Type 0) (r : Parsed A) → Accepts P r → Accepts P (Request.unwrap r)
unwrap-Accepts P (ok a) h = h
unwrap-Accepts P (err e) h = tt
unwrap-Accepts P panic h = tt

game_action-IsSendable :
    (packet : Bytes)
    → All IsByte packet
    → Accepts IsSendableRequest (Request.game_action_from_packet packet)
unfolding Request.game_action_from_packet
game_action-IsSendable packet h =
    Accepts-if IsSendableRequest (ltb (length packet) 2) _ _ (λ _. tt)
      (λ _.
        Accepts-bind (All IsByte) IsSendableRequest (slice_from 1 packet) _
          (Accepts-if (All IsByte) (leb 1 (length packet)) _ _ (λ _. All-drop 1 packet h) (λ _. tt))
          (λ bytes hb.
            Accepts-bind IsCompact IsSendableRequest (Request.unwrap (Action.from_packet bytes)) _
              (unwrap-Accepts IsCompact (Action.from_packet bytes) (action-IsCompact bytes hb))
              (λ action c. c)))

connect-IsSendable :
    (packet : Bytes) → Accepts IsSendableRequest (Request.connect_from_packet packet)
unfolding Request.connect_from_packet
connect-IsSendable packet =
    Accepts-if IsSendableRequest (ltb (length packet) 14) _ _ (λ _. tt)
      (λ long.
        Accepts-bind (λ bs. length bs ≡ 12) IsSendableRequest (slice 1 13 packet) _
          (Accepts-if _ (leb 13 (length packet)) _ _
            (λ _. length-take 12 (drop 1 packet) (long_tail packet (ground (arith, long))))
            (λ _. tt))
          (λ join_bytes size.
            Accepts-bind _ IsSendableRequest (from_utf8 join_bytes) _
              (from_utf8-IsText (λ bs. length bs ≡ 12) join_bytes size)
              (λ join_code (text, size').
                Accepts-bind (λ bs. bs ≢ []) IsSendableRequest (slice_from 13 packet) _
                  (Accepts-if _ (leb 13 (length packet)) _ _
                    (λ _. drop-ne_nil 13 packet (ground (arith, long))) (λ _. tt))
                  (λ name_bytes ne.
                    Accepts-bind _ IsSendableRequest (from_utf8 name_bytes) _
                      (from_utf8-IsText (λ bs. bs ≢ []) name_bytes ne)
                      (λ username (text', ne'). (size', text, text', ne'))))))

pub request_body-IsSendable :
    (packet : Bytes)
    → All IsByte packet
    → Accepts IsSendableRequest (Request.body_from_packet packet)
unfolding Request.body_from_packet
request_body-IsSendable [] h = tt
request_body-IsSendable (b ∷ bs) h =
    Accepts-if IsSendableRequest (b == 1) _ _ (λ _. tt)
      (λ _.
        Accepts-if IsSendableRequest (b == 2) _ _ (λ _. connect-IsSendable (b ∷ bs))
          (λ _.
            Accepts-if IsSendableRequest (b == 3) _ _ (λ _. tt)
              (λ _.
                Accepts-if IsSendableRequest (b == 4) _ _ (λ _. game_action-IsSendable (b ∷ bs) h)
                  (λ _. tt))))

-- A board, which the decoder takes in a form that the encoder does not write.
abbrev pub IsBoard : P2pResponsePacket → Type 0
IsBoard (Response.resync board) = Unit
IsBoard _ = ⊥

abbrev pub IsRelayable : P2pResponsePacket → Type 0
IsRelayable p = IsSendableResponse p ⊎ IsBoard p

response_connect-IsRelayable :
    (packet : Bytes) → Accepts IsRelayable (Response.connect_from_packet packet)
unfolding Response.connect_from_packet
response_connect-IsRelayable packet =
    Accepts-if IsRelayable (ltb (length packet) 3) _ _ (λ _. tt)
      (λ long.
        Accepts-bind _ IsRelayable (byte_at packet 1) _ (Accepts-any (byte_at packet 1)) (λ b _.
          Accepts-bind _ IsRelayable (color_try_from b) _ (Accepts-any (color_try_from b))
            (λ color _.
              Accepts-bind (λ bs. bs ≢ []) IsRelayable (slice_from 2 packet) _
                (Accepts-if _ (leb 2 (length packet)) _ _
                  (λ _. drop-ne_nil 2 packet (ground (arith, long))) (λ _. tt))
                (λ name_bytes ne.
                  Accepts-bind _ IsRelayable (from_utf8 name_bytes) _
                    (from_utf8-IsText (λ bs. bs ≢ []) name_bytes ne)
                    (λ username (text, ne'). inl (text, ne'))))))

error-IsRelayable : (packet : Bytes) → Accepts IsRelayable (Response.error_from_packet packet)
unfolding Response.error_from_packet
error-IsRelayable packet =
    Accepts-if IsRelayable (not (length packet == 2)) _ _ (λ _. tt)
      (λ _. Accepts-bind _ IsRelayable (byte_at packet 1) _ (Accepts-any (byte_at packet 1)) (λ b _.
        Accepts-bind _ IsRelayable (error_try_from b) _ (Accepts-any (error_try_from b))
          (λ kind _. inl tt)))

resync-IsRelayable : (packet : Bytes) → Accepts IsRelayable (Response.resync_from_packet packet)
unfolding Response.resync_from_packet
resync-IsRelayable packet =
    Accepts-if IsRelayable (ltb (length packet) 65) _ _ (λ _. tt)
      (λ _.
        Accepts-bind _ IsRelayable (slice_from 1 packet) _ (Accepts-any (slice_from 1 packet))
          (λ bs _.
            Accepts-bind _ IsRelayable (Response.pieces_from bs) _
              (Accepts-any (Response.pieces_from bs)) (λ board _. inr tt)))

pub response_body-IsRelayable :
    (packet : Bytes) → Accepts IsRelayable (Response.body_from_packet packet)
unfolding Response.body_from_packet
response_body-IsRelayable [] = tt
response_body-IsRelayable (b ∷ bs) =
    Accepts-if IsRelayable (b == 0) _ _ (λ _. error-IsRelayable (b ∷ bs))
      (λ _.
        Accepts-if IsRelayable (b == 1) _ _ (λ _. inl tt)
          (λ _.
            Accepts-if IsRelayable (b == 2) _ _ (λ _. response_connect-IsRelayable (b ∷ bs))
              (λ _.
                Accepts-if IsRelayable (b == 3) _ _ (λ _. resync-IsRelayable (b ∷ bs))
                  (λ _. Accepts-if IsRelayable (b == 4) _ _ (λ _. inl tt) (λ _. tt)))))
