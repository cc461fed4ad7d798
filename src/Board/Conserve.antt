-- ===== src/Board/Conserve.antt =====
-- Performing a move that the search offered: it is possible, and the pieces on the board go down by
-- those taken.
use psychic_fiesta.Prelude.{ℕ, zero, suc, ◌+◌, ◌<◌, true, none, some}
use psychic_fiesta.Prelude.{List, [], ◌∷◌, ◌≡◌, ◌≢◌, ◌⊎◌, inl, inr, refl, sym, ap, ◌∙◌, arith}
use psychic_fiesta.Prelude.{All, get_elem?, set, length, get_elem?-lt}
use psychic_fiesta.Prelude.{get_elem?-set_ne}
use psychic_fiesta.Prelude.Outcome.{done}
use psychic_fiesta.Game.{PieceColor, white, black, PieceData, const_default, Move}
use psychic_fiesta.Legal.{Pieces, Mover}
use psychic_fiesta.Legal.Spec.{Among, IsEmpty, IsEnemy, IsCapture, IsQuiet, Distinct, IsEnemy-lt}
use psychic_fiesta.Legal.Ends.{active_count, active_count-set}
use psychic_fiesta.Rows.{VecModel}
use psychic_fiesta.Board.{Board, BoardSquare, Globals, move_piece}
use psychic_fiesta.Game.{get_opposite}
use psychic_fiesta.Board.Moves.{mover}
use psychic_fiesta.Board.AllPieces.{Owned}
use psychic_fiesta.Board.Perform.{
  taken_squares, captured_list, promote, cleared, moved, move_piece_lem,
}

-- The active pieces after a move.
active_count-put :
    (ps : Pieces) (i : ℕ) (v : PieceData)
    → IsEmpty ps i
    → v.is_active ≡ true
    → active_count (set ps i v) ≡ suc (active_count ps)
active_count-put [] i v (t, e, _) a = cc
active_count-put (p ∷ ps) zero v (t, e, q) a = ground arith
active_count-put (p ∷ ps) (suc i) v h a = omega (arith, active_count-put ps i v h a)

active_count-cleared :
    (xs : List ℕ) (ps : Pieces)
    → Distinct xs
    → All (λ x. (t : PieceData) × (get_elem? ps x ≡ some t) × (t.is_active ≡ true)) xs
    → active_count (cleared xs ps) + length xs ≡ active_count ps
active_count-cleared [] ps d h = omega arith
active_count-cleared (x ∷ xs) ps d ((t, e, a), hs) = omega (
  arith,
  active_count-set ps x t e a,
  active_count-cleared xs (set ps x const_default) d.1 (still xs d.0 hs),
)
  where
    still :
        (ys : List ℕ)
        → All (λ y. y ≢ x) ys
        → All (λ y. (t : PieceData) × (get_elem? ps y ≡ some t) × (t.is_active ≡ true)) ys
        → All
            (λ y.
              (t : PieceData) × (get_elem? (set ps x const_default) y ≡ some t)
              × (t.is_active ≡ true))
            ys
    still [] ne k = tt
    still (y ∷ ys) ne k = (
      (k.0.0, get_elem?-set_ne ps x y const_default (λ q. ne.0 (sym q)) ∙ k.0.1, k.0.2),
      still ys ne.1 k.1,
    )

-- Colours: a piece is not an enemy of its own side.
opposite_ne : (c : PieceColor) → c ≢ get_opposite c
opposite_ne white e = cc
opposite_ne black e = cc

module _ (m : Mover) (ps : Pieces) (mov : Move) (p : PieceData)
    (at : get_elem? ps mov.index ≡ some p) (active : p.is_active ≡ true)
    (own : p.color ≢ m.enemy_color) (empty : IsEmpty ps mov.end) where
  abbrev arrived : Pieces
  arrived = set (set ps mov.end (promote mov p)) mov.index const_default

  end-ne-index : mov.end ≢ mov.index
  end-ne-index e = ground (arith, empty.1, empty.2, ap (get_elem? ps) e)

  active_count-arrived : active_count arrived ≡ active_count ps
  active_count-arrived =
      let stands : get_elem? (set ps mov.end (promote mov p)) mov.index ≡ some p =
        get_elem?-set_ne ps mov.end mov.index (promote mov p) end-ne-index ∙ at in
      omega (
        arith,
        active_count-put ps mov.end (promote mov p) empty active,
        active_count-set (set ps mov.end (promote mov p)) mov.index p stands active,
      )

  enemies_stay :
      (xs : List ℕ)
      → All (IsEnemy m ps) xs
      → All (λ x. (t : PieceData) × (get_elem? arrived x ≡ some t) × (t.is_active ≡ true)) xs
  enemies_stay [] h = tt
  enemies_stay (x ∷ xs) ((t, e, a, c), hs) =
      let from : mov.index ≢ x = λ q. own (ground (arith, at, ap (get_elem? ps) q)) in
      let to : mov.end ≢ x = λ q. ground (arith, empty.1, empty.2, ap (get_elem? ps) q) in
      let kept =
        get_elem?-set_ne (set ps mov.end (promote mov p)) mov.index x const_default from
        ∙ get_elem?-set_ne ps mov.end x (promote mov p) to in
      ((t, kept ∙ e, a), enemies_stay xs hs)

  active_count-capture :
      (xs : List ℕ)
      → mov.captured ≡ some xs
      → All (IsEnemy m ps) xs
      → Distinct xs
      → active_count (moved mov p ps) + length xs ≡ active_count ps
  active_count-capture xs taken enemies distinct = rw taken (
      omega (
        arith,
        active_count-arrived,
        active_count-cleared xs arrived distinct (enemies_stay xs enemies),
      ))

  active_count-quiet : mov.captured ≡ none → active_count (moved mov p ps) ≡ active_count ps
  active_count-quiet taken = simp taken active_count-arrived

enemies_inside :
    (m : Mover) (ps : Pieces) (xs : List ℕ) → All (IsEnemy m ps) xs → All (λ x. x < length ps) xs
enemies_inside m ps [] h = tt
enemies_inside m ps (x ∷ xs) h = (IsEnemy-lt m ps x h.0, enemies_inside m ps xs h.1)

Among-inside : (n c : ℕ) (xs : List ℕ) → All (λ x. x < n) xs → Among c xs → c < n
Among-inside n c [] h a = absurd a
Among-inside n c (x ∷ xs) h (inl e) = rw e h.0
Among-inside n c (x ∷ xs) h (inr a) = Among-inside n c xs h.1 a

lands_inside :
    (n c : ℕ) (ps : Pieces) (xs : List ℕ)
    → length ps ≡ n
    → All (λ x. x < n) xs
    → IsEmpty ps c ⊎ Among c xs
    → c < n
lands_inside n c ps xs s h (inl (t, e, _)) = rw s at (get_elem?-lt ps c e)
lands_inside n c ps xs s h (inr a) = Among-inside n c xs h a

abbrev pub requested : Move → Globals
requested mov = record { board_move = mov }

module _ (pv : VecModel PieceData) (sv : VecModel BoardSquare) (b : Board pv sv)
    (size : length (pv.contents b.pieces) ≡ 32) (mov : Move) where
  abbrev board : Pieces
  board = pv.contents b.pieces

  -- On a board of 32 rows a capture by an own active piece, as the search offers it, is performed
  -- without a panic: the piece is written to its end, then its start is cleared, and then the captured
  -- squares.
  pub move_piece-performs :
      (o : Owned pv sv b size IsCapture mov)
      → (b' : Board pv sv) × (move_piece pv sv (requested mov) b ≡ done b')
        × (pv.contents b'.pieces ≡ moved mov o.0 board)
  move_piece-performs (p, at, active, own, c) =
      let m = mover pv sv b mov.index p in
      let fits = enemies_inside m board c.squares c.enemies in
      let taken : taken_squares mov ≡ c.squares = ap captured_list c.taken in
      move_piece_lem pv sv (requested mov) b p at
        (lands_inside (length board) mov.end board c.squares refl fits c.lands) (rw taken fits)

  -- On a board of 32 rows a capture by an own active piece that ends on an empty square is performed
  -- without a panic, and the board has as many active pieces fewer as the move lists taken squares.
  pub move_piece-capture :
      (o : Owned pv sv b size IsCapture mov)
      → IsEmpty board mov.end
      → (b' : Board pv sv) × (move_piece pv sv (requested mov) b ≡ done b')
        × (active_count (pv.contents b'.pieces) + length (taken_squares mov) ≡ active_count board)
  move_piece-capture (p, at, active, own, c) empty =
      let m = mover pv sv b mov.index p in
      let taken : taken_squares mov ≡ c.squares = ap captured_list c.taken in
      let (b', e, k) = move_piece-performs (p, at, active, own, c) in
      (
        b',
        e,
        omega (
          arith,
          ap active_count k,
          ap length taken,
          active_count-capture m board mov p at active (opposite_ne p.color) empty c.squares c.taken
              c.enemies c.distinct,
        ),
      )

  -- On a board of 32 rows a quiet move of an own active piece to an empty square is performed without
  -- a panic, and the board has as many active pieces as before.
  pub move_piece-quiet :
      (o : Owned pv sv b size IsQuiet mov)
      → (b' : Board pv sv) × (move_piece pv sv (requested mov) b ≡ done b')
        × (pv.contents b'.pieces ≡ moved mov o.0 board)
        × (active_count (pv.contents b'.pieces) ≡ active_count board)
  move_piece-quiet (p, at, active, own, q) =
      let m = mover pv sv b mov.index p in
      let (b', e, k) =
        move_piece_lem pv sv (requested mov) b p at (get_elem?-lt board mov.end q.lands.1)
          (rw (ap captured_list q.taken) tt) in
      (
        b',
        e,
        k,
        rw k (active_count-quiet m board mov p at active (opposite_ne p.color) q.lands q.taken),
      )
