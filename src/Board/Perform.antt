-- ===== src/Board/Perform.antt =====
-- `move_piece`: what it does to the rows, and that it keeps count of the pieces.
use psychic_fiesta.Prelude.{get_elem?-set, ℕ, ◌<◌, Bool, false, ◌||◌, Option, none, some}
use psychic_fiesta.Prelude.{List, [], ◌∷◌, ◌≡◌, refl, sym, ap, ◌∙◌, arith, ◌==◌}
use psychic_fiesta.Prelude.{All, get_elem?, set, length, length-set, get_elem?-lt, if◌then◌else◌}
use psychic_fiesta.Prelude.Outcome.{done}
use psychic_fiesta.Game.{PieceData, const_default, Move}
use psychic_fiesta.Legal.{Pieces}
use psychic_fiesta.Rows.{VecModel}
use psychic_fiesta.Board.{Board, BoardSquare, Globals, clear_captured, clear_taken, move_piece}
use mathlib.Core.Path.{subst}

abbrev pub among : ℕ → List ℕ → Bool
among c [] = false
among c (x ∷ xs) = (x == c) || among c xs

abbrev pub captured_list : Option (List ℕ) → List ℕ
captured_list none = []
captured_list (some xs) = xs

abbrev pub taken_squares : Move → List ℕ
taken_squares mov = captured_list mov.captured

-- The piece as it arrives.
abbrev pub promote : Move → PieceData → PieceData
promote mov p = record p { is_king = p.is_king || mov.promoted }

abbrev pub cleared : List ℕ → Pieces → Pieces
cleared [] ps = ps
cleared (x ∷ xs) ps = cleared xs (set ps x const_default)

-- The rows after the move, written on a list.
abbrev pub moved : Move → PieceData → Pieces → Pieces
moved mov p ps =
    cleared (taken_squares mov) (set (set ps mov.end (promote mov p)) mov.index const_default)

pub length-cleared : (xs : List ℕ) (ps : Pieces) → length (cleared xs ps) ≡ length ps
length-cleared [] ps = refl
length-cleared (x ∷ xs) ps =
    length-cleared xs (set ps x const_default) ∙ length-set ps x const_default

get_elem?-cleared :
    (xs : List ℕ) (ps : Pieces) (c : ℕ)
    → c < length ps
    → get_elem? (cleared xs ps) c ≡ (if among c xs then some const_default else get_elem? ps c)
get_elem?-cleared [] ps c h = refl
get_elem?-cleared (x ∷ xs) ps c h =
    let ps' : Pieces = set ps x const_default in
    get_elem?-cleared xs ps' c (rw (length-set ps x const_default) h)
    ∙ ground (arith, get_elem?-set ps x c const_default h)

-- Every square after the move: what was taken and where the piece stood is empty, where it went it
-- stands, and the rest is as before; what was taken wins over where it went.
pub get_elem?-moved :
    (mov : Move) (p : PieceData) (ps : Pieces) (c : ℕ)
    → c < length ps
    → get_elem? (moved mov p ps) c ≡ (
        if among c (taken_squares mov)
        then some const_default
        else if mov.index == c
        then some const_default
        else if mov.end == c
        then some (promote mov p)
        else get_elem? ps c)
get_elem?-moved mov p ps c h =
    let ps₁ : Pieces = set ps mov.end (promote mov p) in
    let h₁ : c < length ps₁ = rw (length-set ps mov.end (promote mov p)) h in
    let ps₂ : Pieces = set ps₁ mov.index const_default in
    get_elem?-cleared (taken_squares mov) ps₂ c (rw (length-set ps₁ mov.index const_default) h₁)
    ∙ rw (get_elem?-set ps₁ mov.index c const_default h₁)
        (rw (get_elem?-set ps mov.end c (promote mov p) h))

module _ (pv : VecModel PieceData) (sv : VecModel BoardSquare) where
  clear_captured-cleared :
      (xs : List ℕ) (r : pv.Rows)
      → All (λ x. x < length (pv.contents r)) xs
      → (r' : pv.Rows) × (clear_captured pv sv xs r ≡ done r')
        × (pv.contents r' ≡ cleared xs (pv.contents r))
  unfolding clear_captured
  clear_captured-cleared [] r h = (r, refl, refl)
  clear_captured-cleared (x ∷ xs) r (hx, hs) =
      let (r₁, e₁, c₁) = pv.set_row_data_lem r x const_default hx in
      let same : length (pv.contents r) ≡ length (pv.contents r₁) =
        sym (ap length c₁ ∙ length-set (pv.contents r) x const_default) in
      let (r', e, c) = clear_captured-cleared xs r₁ (subst (λ n. All (λ y. y < n) xs) same hs) in
      (r', rw e₁ e, c ∙ ap (cleared xs) c₁)

  clear_taken-cleared :
      (o : Option (List ℕ)) (r : pv.Rows)
      → All (λ x. x < length (pv.contents r)) (captured_list o)
      → (r' : pv.Rows) × (clear_taken pv sv o r ≡ done r')
        × (pv.contents r' ≡ cleared (captured_list o) (pv.contents r))
  unfolding clear_taken
  clear_taken-cleared none r h = (r, refl, refl)
  clear_taken-cleared (some xs) r h = clear_captured-cleared xs r h

  -- A move from a row that holds `p` to a row that is there, with captured squares that are there, is
  -- performed without a panic: `p`, a king if it was one or is promoted, is written to the end, then
  -- the start is cleared, and then the captured squares one after the other.
  pub move_piece_lem :
      (g : Globals) (b : Board pv sv) (p : PieceData)
      → get_elem? (pv.contents b.pieces) g.board_move.index ≡ some p
      → g.board_move.end < length (pv.contents b.pieces)
      → All (λ x. x < length (pv.contents b.pieces)) (taken_squares g.board_move)
      → (b' : Board pv sv) × (move_piece pv sv g b ≡ done b')
        × (pv.contents b'.pieces ≡ moved g.board_move p (pv.contents b.pieces))
  unfolding move_piece
  move_piece_lem g b p at inside taken =
      let mov = g.board_move in
      let ps = pv.contents b.pieces in
      let v = promote mov p in
      let (r₁, e₁, c₁) = pv.set_row_data_lem b.pieces mov.end v inside in
      let len₁ : length (pv.contents r₁) ≡ length ps = ap length c₁ ∙ length-set ps mov.end v in
      let (r₂, e₂, c₂) =
        pv.set_row_data_lem r₁ mov.index const_default (rw len₁ (get_elem?-lt ps mov.index at)) in
      let len₂ : length ps ≡ length (pv.contents r₂) =
        sym (ap length c₂ ∙ length-set (pv.contents r₁) mov.index const_default ∙ len₁) in
      let (r₃, e₃, c₃) =
        clear_taken-cleared mov.captured r₂
          (subst (λ n. All (λ y. y < n) (taken_squares mov)) len₂ taken) in
      (
        record b { pieces = r₃ },
        rw (pv.row_data_lem b.pieces mov.index ∙ at) (rw e₁ (rw e₂ (rw e₃))),
        c₃ ∙ ap (cleared (taken_squares mov)) (c₂ ∙ ap (λ q. set q mov.index const_default) c₁),
      )
