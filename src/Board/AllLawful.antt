-- ===== src/Board/AllLawful.antt =====
-- `get_legal_moves` against the rules: what it offers is what the player may play.
use psychic_fiesta.Prelude.{ℕ, zero, suc, ◌+◌, ◌<◌, ◌≤◌, Bool, true, false, Option, none, some}
use psychic_fiesta.Prelude.{List, [], ◌∷◌, ◌≡◌, ◌↔◌, inl, inr, refl, ◌∙◌, arith}
use psychic_fiesta.Prelude.{get_elem?, length, get_elem?-total, get_elem?-lt, Bool-cases, ◌==◌}
use mathlib.Core.Path.{subst}
use psychic_fiesta.Prelude.Outcome.{done}
use psychic_fiesta.Prelude.Holds.{Holds, Holds-map, Holds-done}
use psychic_fiesta.Game.{color_eq, PieceData, Move}
use psychic_fiesta.Legal.{Pieces, Found}
use psychic_fiesta.Legal.Tours.{Tour-CanHop, Tour-captured, Slide-captured}
use psychic_fiesta.Legal.Listing.{Listed, Exactly, Exactly-map, Lists, Lists-map, Any}
use psychic_fiesta.Legal.Listing.{⊎-left}
use psychic_fiesta.Legal.Further.{Holds-then}
use psychic_fiesta.Rows.{VecModel}
use psychic_fiesta.Board.{Board, BoardSquare}
use psychic_fiesta.Board.Moves.{finish_found}
use psychic_fiesta.Board.Moves.{legal_turn, legal_loop}
use psychic_fiesta.Board.Moves.{get_legal_moves, moves_of}
use psychic_fiesta.Board.Gather.{fold_found, moves_or_nil}
use psychic_fiesta.Legal.Rules.{CanCapture, Captures, Quiets, Legal, Own}
use psychic_fiesta.Board.Lawful.{legal_turn-Exactly}
use psychic_fiesta.Board.Returns.{get_legal_moves-returns}
use psychic_fiesta.Board.Complete.{Exacts, fold_found-Exactly}

abbrev pub squares_from : ℕ → ℕ → List ℕ
squares_from index zero = []
squares_from index (suc n) = index ∷ squares_from (index + 1) n

Any-some : (P : ℕ → Type 0) (xs : List ℕ) → Any P xs → (x : ℕ) × P x
Any-some P [] h = absurd h
Any-some P (x ∷ xs) (inl p) = (x, p)
Any-some P (x ∷ xs) (inr h) = Any-some P xs h

Any-squares :
    (P : ℕ → Type 0) (i : ℕ)
    → P i
    → (n index : ℕ) → index ≤ i
    → i < index + n
    → Any P (squares_from index n)
Any-squares P i p zero index above below = absurd (omega arith)
Any-squares P i p (suc n) index above below = elim (Bool-cases (index == i)) [
  | inl same ↦ let e : i ≡ index = ground arith in inl (subst P e p)
  | inr other ↦ inr (Any-squares P i p n (index + 1) (ground arith) (omega arith))
]

module _ (pv : VecModel PieceData) (sv : VecModel BoardSquare) (b : Board pv sv)
    (size : length (pv.contents b.pieces) ≡ 32) where
  abbrev board : Pieces
  board = pv.contents b.pieces

  abbrev Can : ℕ → Type 0
  Can = CanCapture b.player_color board

  abbrev Capturing : ℕ → Move → Type 0
  Capturing = Captures b.player_color board

  abbrev Stepping : ℕ → Move → Type 0
  Stepping = Quiets b.player_color board

  legal_loop-Exacts :
      (n index : ℕ) (acc : Option (List Move) × Bool)
      → index + n ≡ 32
      → Holds
          (λ out.
            (fs : List Found) × Exacts Can Capturing Stepping (squares_from index n) fs
            × (out ≡ finish_found (fold_found fs acc)))
          (legal_loop pv sv b n index acc)
  unfolding legal_loop
  legal_loop-Exacts zero index acc h = ([], tt, refl)
  legal_loop-Exacts (suc n) index acc h =
      let (p, e) = get_elem?-total board index (omega arith) in
      rw (pv.row_data_lem b.pieces index ∙ e, legal_loop)
        (Holds-then _ _ (legal_turn pv sv b index p acc)
          (λ acc'. legal_loop pv sv b n (index + 1) acc')
          (legal_turn-Exactly pv sv b size index p e acc)
          (λ acc' (f, hf, e').
            Holds-map _ _ (legal_loop pv sv b n (index + 1) acc')
              (λ out (fs, hs, q). (f ∷ fs, (hf, hs), rw e' at q))
              (legal_loop-Exacts n (index + 1) acc' (omega arith))))

  -- Every square is looked at.
  all_squares :
      (P : ℕ → Type 0)
      → ((index : ℕ) → P index → index < 32)
      → Any P (squares_from 0 32) ↔ ((index : ℕ) × P index)
  all_squares P inside = (
    Any-some P (squares_from 0 32),
    λ (index, p). Any-squares P index p 32 0 (omega arith) (inside index p),
  )

  Own-lt : (index : ℕ) (p : PieceData) → Own b.player_color board index p → index < 32
  Own-lt index p (e, _, _) = omega (arith, get_elem?-lt board index e)

  legal_loop-Exactly :
      Holds
        (Exactly
          ((index : ℕ) × Can index)
          (λ mov. (index : ℕ) × Capturing index mov)
          (λ mov. (index : ℕ) × Stepping index mov))
        (legal_loop pv sv b 32 0 (none, false))
  legal_loop-Exactly =
      Holds-map _ _ (legal_loop pv sv b 32 0 (none, false))
        (λ out (fs, hs, e). rw e (
          Exactly-map (all_squares Can (λ index (p, own, _). Own-lt index p own))
            (λ mov.
              all_squares (λ index. Capturing index mov) (λ index (p, own, _). Own-lt index p own))
            (λ mov.
              all_squares (λ index. Stepping index mov) (λ index (p, own, _). Own-lt index p own))
            (finish_found (fold_found fs (none, false)))
            (fold_found-Exactly Can Capturing Stepping
              (λ index mov (p, own, (d, t)). Tour-captured t)
              (λ index mov (p, own, (d, s)). Slide-captured s)
              (λ index mov (p, own, (d, t)). (p, own, (d, Tour-CanHop t))) (squares_from 0 32) fs
              hs)))
        (legal_loop-Exacts 32 0 (none, false) (omega arith))

  Lists-Legal :
      (found : Found)
      → Exactly
          ((index : ℕ) × Can index)
          (λ mov. (index : ℕ) × Capturing index mov)
          (λ mov. (index : ℕ) × Stepping index mov)
          found
      → Lists (Legal b.player_color board) (moves_or_nil (moves_of found))
  Lists-Legal none (never, still) = λ mov. (
    λ l. absurd l,
    elim [
      | inl (index, (p, own, (d, t))) ↦ never (index, (p, own, (d, Tour-CanHop t)))
      | inr (_, q) ↦ still mov q
    ],
  )
  Lists-Legal (some (moves, true)) (can, l) =
      Lists-map moves (λ mov. ⊎-left (λ (never, _). never can.0 can.1)) l
  Lists-Legal (some (moves, false)) (never, l) =
      Lists-map moves
        (λ mov. (
          λ q. inr (λ index c. never (index, c), q),
          elim [
            | inl (index, (p, own, (d, t))) ↦ absurd (never (index, (p, own, (d, Tour-CanHop t))))
            | inr (_, q) ↦ q
          ],
        ))
        l

  -- Where it returns, `get_legal_moves` returns the legal moves, all of them.
  pub get_legal_moves-Legal :
      Holds
        (λ moves. Lists (Legal b.player_color board) (moves_or_nil moves))
        (get_legal_moves pv sv b)
  unfolding get_legal_moves
  get_legal_moves-Legal =
      rw (pv.row_count_lem b.pieces, size)
        (Holds-then _ _ (legal_loop pv sv b 32 0 (none, false)) (λ found. done (moves_of found))
          legal_loop-Exactly Lists-Legal)

module _ (pv : VecModel PieceData) (sv : VecModel BoardSquare) (b : Board pv sv)
    (size : length (pv.contents b.pieces) ≡ 32) (man : PieceData)
    (at : get_elem? (pv.contents b.pieces) 28 ≡ some man) (active : man.is_active ≡ true)
    (low : man.is_king ≡ false) (own : color_eq man.color b.player_color ≡ true) where
  -- On a board of 32 rows with an active man of the player on square 28, such as the starting
  -- position, `get_legal_moves` returns, and a move is among those it returns exactly when it is legal:
  -- a capture by one of the player's active pieces, jump after jump for as long as there is a further
  -- one; or, only if none of those pieces can capture anything, a quiet move of one of them.
  pub get_legal_moves-lawful :
      (moves : Option (List Move)) × (get_legal_moves pv sv b ≡ done moves)
      × ((mov : Move)
          → Listed mov (moves_or_nil moves) ↔ Legal b.player_color (pv.contents b.pieces) mov)
  get_legal_moves-lawful =
      let (moves, e, _) = get_legal_moves-returns pv sv b size man at active low own in
      (moves, e, Holds-done _ _ moves (get_legal_moves-Legal pv sv b size) e)
