-- ===== src/Board/AllPieces.antt =====
-- What `get_legal_moves` returns, on every board of 32 rows.
use psychic_fiesta.Prelude.{ℕ, zero, suc, ◌+◌, Bool, true, false, Option, none, some}
use psychic_fiesta.Prelude.{List, [], ◌∷◌, ◌≡◌, ◌≢◌, ◌⊎◌, inl, inr, refl, sym, ◌∙◌, arith}
use psychic_fiesta.Prelude.{All, get_elem?, length, get_elem?-total}
use psychic_fiesta.Prelude.{Bool-cases}
use mathlib.Core.Path.{subst}
use psychic_fiesta.Prelude.Outcome.{done}
use psychic_fiesta.Game.{color_eq, PieceData, Move}
use psychic_fiesta.Legal.{Pieces, Found, Mover}
use psychic_fiesta.Legal.Spec.{IsCapture, IsQuiet, Labelled, Describes, Safe, Safe-bind, Safe-map}
use psychic_fiesta.Legal.Sound.{color_eq→≡}
use psychic_fiesta.Legal.Ends.{Ends, Ends-bind}
use psychic_fiesta.Rows.{VecModel}
use psychic_fiesta.Board.{Board, BoardSquare}
use psychic_fiesta.Board.Moves.{gather_found, finish_found, mover}
use psychic_fiesta.Board.Moves.{get_legal_moves_piece, legal_loop, legal_turn}
use psychic_fiesta.Board.Moves.{get_legal_moves}
use psychic_fiesta.Board.Gather.{fold_found}
use psychic_fiesta.Board.Gather.{fold_found-mandatory}
use psychic_fiesta.Board.Labelled.{Labelled-Uniform, Labelled-mandatory}
use psychic_fiesta.Board.Moves.{moves_of}
use psychic_fiesta.Board.OnePiece.{get_legal_moves_piece-Safe, get_legal_moves_piece-Ends}
use psychic_fiesta.Board.OnePiece.{get_legal_moves_piece_inactive}

module _ (pv : VecModel PieceData) (sv : VecModel BoardSquare) (b : Board pv sv)
    (size : length (pv.contents b.pieces) ≡ 32) where
  abbrev board : Pieces
  board = pv.contents b.pieces

  -- A capture, or a quiet move, of one of the player's own active pieces.
  abbrev pub Owned : (Mover → Pieces → Move → Type 0) → Move → Type 0
  Owned IsMove mov =
      (p : PieceData) × (get_elem? board mov.index ≡ some p)
      × (p.is_active ≡ true)
      × (p.color ≡ b.player_color)
      × IsMove (mover pv sv b mov.index p) board mov

  All-Owned :
      (IsMove : Mover → Pieces → Move → Type 0) (index : ℕ) (p : PieceData)
      → get_elem? board index ≡ some p
      → (p.is_active ≡ true) × (p.color ≡ b.player_color)
      → ((mov : Move) → IsMove (mover pv sv b index p) board mov → mov.index ≡ index)
      → (moves : List Move) → All (IsMove (mover pv sv b index p) board) moves
      → All (Owned IsMove) moves
  All-Owned IsMove index p e own from [] h = tt
  All-Owned IsMove index p e own from (mov ∷ moves) h =
      let here = sym (from mov h.0) in
      (
        (
          p,
          subst (λ j. get_elem? board j ≡ some p) here e,
          own.0,
          own.1,
          subst (λ j. IsMove (mover pv sv b j p) board mov) here h.0,
        ),
        All-Owned IsMove index p e own from moves h.1,
      )

  Owned-found :
      (index : ℕ) (p : PieceData) (found : Found)
      → get_elem? board index ≡ some p
      → (p.is_active ≡ true) × (p.color ≡ b.player_color)
      → Describes (mover pv sv b index p) board found
      → Labelled (Owned IsCapture) (Owned IsQuiet) found
  Owned-found index p none e own h = tt
  Owned-found index p (some (moves, true)) e own h =
      (All-Owned IsCapture index p e own (λ mov c. c.from) moves h.0, h.1)
  Owned-found index p (some (moves, false)) e own h =
      (All-Owned IsQuiet index p e own (λ mov q. q.from) moves h.0, h.1)

  abbrev pub OwnFound : Found → Type 0
  OwnFound found = Labelled (Owned IsCapture) (Owned IsQuiet) found

  own_moves-Safe :
      (index : ℕ) (p : PieceData)
      → get_elem? board index ≡ some p
      → p.color ≡ b.player_color
      → Safe OwnFound (get_legal_moves_piece pv sv b index)
        × Ends (get_legal_moves_piece pv sv b index)
  own_moves-Safe index p e own = elim (Bool-cases p.is_active) [
    | inl active ↦ (
      Safe-map _ OwnFound _ (λ found. Owned-found index p found e (active, own))
          (get_legal_moves_piece-Safe pv sv b size index p e active),
      get_legal_moves_piece-Ends pv sv b size index p e active,
    )
    | inr empty ↦ rw (get_legal_moves_piece_inactive pv sv b size index p e empty) (tt, tt)
  ]

  pub legal_turn-Safe :
      (index : ℕ) (p : PieceData) (acc : Option (List Move) × Bool)
      → get_elem? board index ≡ some p
      → Safe
          (λ out. (f : Found) × OwnFound f × (out ≡ gather_found f acc))
          (legal_turn pv sv b index p acc)
        × Ends (legal_turn pv sv b index p acc)
  unfolding legal_turn
  legal_turn-Safe index p acc e = elim (Bool-cases (color_eq p.color b.player_color)) [
    | inr other ↦ rw other ((none, tt, refl), tt)
    | inl own ↦
        let own' = color_eq→≡ p.color b.player_color own in
        let (safe, ends) = own_moves-Safe index p e own' in
        rw own (
          Safe-bind OwnFound _ (get_legal_moves_piece pv sv b index) _ safe
              (λ found h. (found, h, refl)),
          Ends-bind (get_legal_moves_piece pv sv b index) _ ends (λ _ _. tt),
        )
  ]

  legal_loop-Safe :
      (n index : ℕ) (acc : Option (List Move) × Bool)
      → index + n ≡ 32
      → Safe
          (λ out. (fs : List Found) × All OwnFound fs × (out ≡ finish_found (fold_found fs acc)))
          (legal_loop pv sv b n index acc)
        × Ends (legal_loop pv sv b n index acc)
  unfolding legal_loop
  legal_loop-Safe zero index acc h = (([], tt, refl), tt)
  legal_loop-Safe (suc n) index acc h =
      let (p, e) = get_elem?-total board index (omega arith) in
      let read = pv.row_data_lem b.pieces index ∙ e in
      let (safe, ends) = legal_turn-Safe index p acc e in
      let next =
        λ (acc' : Option (List Move) × Bool). legal_loop-Safe n (index + 1) acc' (omega arith) in
      rw (read, legal_loop)
        (
          Safe-bind _ _ (legal_turn pv sv b index p acc)
              (λ acc'. legal_loop pv sv b n (index + 1) acc') safe
              (λ acc' (f, hf, e').
                Safe-map _ _ (legal_loop pv sv b n (index + 1) acc')
                  (λ out (fs, hs, q). (f ∷ fs, (hf, hs), rw e' at q)) (next acc').0),
          Ends-bind (legal_turn pv sv b index p acc) (λ acc'. legal_loop pv sv b n (index + 1) acc')
              ends (λ acc' _. (next acc').1),
        )

  -- All the moves offered capture, or none does; each is one of the player's own pieces'.
  abbrev pub Offered : Option (List Move) → Type 0
  Offered none = Unit
  Offered (some moves) = (All (Owned IsCapture) moves ⊎ All (Owned IsQuiet) moves) × (moves ≢ [])

  Offered-moves_of : (found : Found) → OwnFound found → Offered (moves_of found)
  Offered-moves_of none h = tt
  Offered-moves_of (some (moves, true)) h = (inl h.0, h.1)
  Offered-moves_of (some (moves, false)) h = (inr h.0, h.1)

  -- On a board of 32 rows `get_legal_moves` ends without undefined behaviour, and where it returns
  -- moves, they are at least one, each is a move of an active piece of the player, and all of them
  -- are captures or all are quiet. (It may still panic.)
  pub get_legal_moves-Offered :
      Safe Offered (get_legal_moves pv sv b) × Ends (get_legal_moves pv sv b)
  unfolding get_legal_moves
  get_legal_moves-Offered =
      let (safe, ends) = legal_loop-Safe 32 0 (none, false) (omega arith) in
      let P = Owned IsCapture in
      let Q = Owned IsQuiet in
      rw (pv.row_count_lem b.pieces, size)
        (
          Safe-bind _ Offered (legal_loop pv sv b 32 0 (none, false))
              (λ found. done (moves_of found)) safe
              (λ found (fs, hs, e). Offered-moves_of found (
                rw
                  (
                    e,
                    fold_found-mandatory fs (
                        Labelled-Uniform P Q (λ mov o. (o.4.squares, o.4.taken))
                          (λ mov o. o.4.taken) fs hs),
                  )
                  (Labelled-mandatory P Q fs hs))),
          Ends-bind (legal_loop pv sv b 32 0 (none, false)) _ ends (λ _ _. tt),
        )
