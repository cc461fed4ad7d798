-- ===== src/Board/Inside.antt =====
-- The moves that the player is offered name squares of the board.
use psychic_fiesta.Prelude.{ℕ, ◌<◌, some, List, [], ◌∷◌, ◌≡◌, inl, inr, sym}
use psychic_fiesta.Prelude.{All, length, get_elem?, get_elem?-lt}
use psychic_fiesta.Game.{PieceData, Move}
use psychic_fiesta.Game.Reverse.{IsOnBoard, IsOnBoardList}
use psychic_fiesta.Legal.{Pieces, Mover}
use psychic_fiesta.Legal.Spec.{IsEmpty, IsEnemy, Among, IsCapture, IsQuiet, IsEnemy-lt}
use psychic_fiesta.Rows.{VecModel}
use psychic_fiesta.Board.{Board, BoardSquare}
use psychic_fiesta.Board.AllPieces.{Owned}
use mathlib.Core.Path.{subst}

enemies-inside :
    (m : Mover) (ps : Pieces) (xs : List ℕ)
    → length ps ≡ 32
    → All (IsEnemy m ps) xs
    → All (λ x. x < 32) xs
enemies-inside m ps [] size h = tt
enemies-inside m ps (x ∷ xs) size (hx, hs) =
    (subst (λ n. x < n) size (IsEnemy-lt m ps x hx), enemies-inside m ps xs size hs)

Among-inside : (c : ℕ) (xs : List ℕ) → All (λ x. x < 32) xs → Among c xs → c < 32
Among-inside c [] h a = absurd a
Among-inside c (x ∷ xs) (hx, hs) (inl e) = rw e hx
Among-inside c (x ∷ xs) (hx, hs) (inr a) = Among-inside c xs hs a

IsEmpty-inside : (ps : Pieces) (c : ℕ) → length ps ≡ 32 → IsEmpty ps c → c < 32
IsEmpty-inside ps c size (t, e, _) = subst (λ n. c < n) size (get_elem?-lt ps c e)

IsCapture-inside :
    (m : Mover) (ps : Pieces) (mov : Move)
    → length ps ≡ 32
    → IsCapture m ps mov
    → (mov.end < 32) × IsOnBoardList mov.captured
IsCapture-inside m ps mov size c =
    let inside = enemies-inside m ps c.squares size c.enemies in
    (
      (elim c.lands [
        | inl e ↦ IsEmpty-inside ps mov.end size e
        | inr a ↦ Among-inside mov.end c.squares inside a
      ]),
      subst IsOnBoardList (sym c.taken) inside,
    )

IsQuiet-inside :
    (m : Mover) (ps : Pieces) (mov : Move)
    → length ps ≡ 32
    → IsQuiet m ps mov
    → (mov.end < 32) × IsOnBoardList mov.captured
IsQuiet-inside m ps mov size q =
    (IsEmpty-inside ps mov.end size q.lands, subst IsOnBoardList (sym q.taken) tt)

module _ (pv : VecModel PieceData) (sv : VecModel BoardSquare) (b : Board pv sv)
    (size : length (pv.contents b.pieces) ≡ 32) where
  -- A piece stands where the move starts, and all its squares are on the board.
  abbrev pub Starts : Move → Type 0
  Starts mov =
      (p : PieceData) × (get_elem? (pv.contents b.pieces) mov.index ≡ some p) × IsOnBoard mov

  pub capture-Starts : (mov : Move) → Owned pv sv b size IsCapture mov → Starts mov
  capture-Starts mov (p, at, _, _, c) =
      let (he, hc) = IsCapture-inside _ _ mov size c in
      (p, at, (subst (λ n. mov.index < n) size (get_elem?-lt _ mov.index at), he, hc))

  pub quiet-Starts : (mov : Move) → Owned pv sv b size IsQuiet mov → Starts mov
  quiet-Starts mov (p, at, _, _, q) =
      let (he, hc) = IsQuiet-inside _ _ mov size q in
      (p, at, (subst (λ n. mov.index < n) size (get_elem?-lt _ mov.index at), he, hc))
