-- ===== src/Board/Lawful.antt =====
-- `get_legal_moves_piece`, and a round of `get_legal_moves`, against the rules.
use psychic_fiesta.Prelude.{ℕ, ◌<◌, Bool, true, false, Option, none, some}
use psychic_fiesta.Prelude.{List, [], ◌∷◌, ◌≡◌, ◌≢◌, ◌↔◌, inl, inr, refl, sym, ◌∙◌, arith}
use psychic_fiesta.Prelude.{get_elem?, length, get_elem?-lt, Bool-cases, ap}
use mathlib.Core.Path.{subst}
use psychic_fiesta.Prelude.Outcome.{Outcome, done}
use psychic_fiesta.Prelude.Holds.{Holds, Holds-map}
use psychic_fiesta.Game.{PieceColor, white, black, color_eq, PieceData, Move, Direction, values}
use psychic_fiesta.Legal.{Pieces, Found, check_move}
use psychic_fiesta.Legal.Tours.{CanHop, Tour, Slide, Tour-CanHop, Tour-captured, Slide-captured}
use psychic_fiesta.Legal.Listing.{Exactly, Exactly-map}
use psychic_fiesta.Legal.Further.{Holds-then}
use psychic_fiesta.Legal.Taking.{Any-values}
use psychic_fiesta.Legal.Exact.{check_move-Exact}
use psychic_fiesta.Legal.Sound.{color_eq→≡}
use psychic_fiesta.Legal.Rules.{
  PieceHops, PieceTours, PieceSlides, Own, CanCapture, Captures, Quiets,
}
use psychic_fiesta.Rows.{VecModel}
use psychic_fiesta.Board.{Board, BoardSquare}
use psychic_fiesta.Board.Moves.{gather_found, finish_found, gather_directions, check_fuel, mover}
use psychic_fiesta.Board.Moves.{legal_from, get_legal_moves_piece, legal_turn}
use psychic_fiesta.Board.Gather.{fold_found}
use psychic_fiesta.Board.Complete.{Exacts, fold_found-Exactly}
use psychic_fiesta.Board.OnePiece.{get_legal_moves_piece-legal_from, get_legal_moves_piece_inactive}

color_ne : (a b : PieceColor) → color_eq a b ≡ false → a ≢ b
color_ne white white h e = cc
color_ne black black h e = cc
color_ne white black h e = cc
color_ne black white h e = cc

gather_directions-Exacts :
    (C : Direction → Type 0) (T Q : Direction → Move → Type 0) (call : Direction → Outcome Found)
    → ((d : Direction) → Holds (Exactly (C d) (T d) (Q d)) (call d))
    → (ds : List Direction) (acc : Option (List Move) × Bool)
    → Holds
        (λ out. (fs : List Found) × Exacts C T Q ds fs × (out ≡ fold_found fs acc))
        (gather_directions call ds acc)
unfolding gather_directions
gather_directions-Exacts C T Q call exact [] acc = ([], tt, refl)
gather_directions-Exacts C T Q call exact (d ∷ ds) acc = Holds-then _ _ (call d) _ (exact d) (λ f h.
    Holds-map _ _ (gather_directions call ds (gather_found f acc))
      (λ out (fs, hs, e). (f ∷ fs, (h, hs), e))
      (gather_directions-Exacts C T Q call exact ds (gather_found f acc)))

module _ (pv : VecModel PieceData) (sv : VecModel BoardSquare) (b : Board pv sv)
    (size : length (pv.contents b.pieces) ≡ 32) where
  abbrev board : Pieces
  board = pv.contents b.pieces

  abbrev Hopping : ℕ → PieceData → Type 0
  Hopping = PieceHops b.player_color board

  abbrev Touring : ℕ → PieceData → Move → Type 0
  Touring = PieceTours b.player_color board

  abbrev Sliding : ℕ → PieceData → Move → Type 0
  Sliding = PieceSlides b.player_color board

  legal_from-Exactly :
      (index : ℕ) (p : PieceData)
      → index < 32
      → Holds
          (Exactly (Hopping index p) (Touring index p) (Sliding index p))
          (legal_from pv sv b index p board)
  unfolding legal_from
  legal_from-Exactly index p small =
      let m = mover pv sv b index p in
      let king = p.is_king in
      let looked = λ (d : Direction). check_move check_fuel m board index king d false in
      let C = λ (d : Direction). CanHop m board king d index in
      let T = λ (d : Direction) (mov : Move). Tour m board king d index mov in
      let Q = λ (d : Direction) (mov : Move). Slide m board king d mov index in
      Holds-then _ _ (gather_directions looked values (none, false))
        (λ gathered. done (finish_found gathered))
        (gather_directions-Exacts C T Q looked
          (λ d. check_move-Exact check_fuel m board index king d false size small) values
          (none, false))
        (λ gathered (fs, hs, e). rw e (
          Exactly-map (Any-values C) (λ mov. Any-values (λ d. T d mov))
            (λ mov. Any-values (λ d. Q d mov)) (finish_found (fold_found fs (none, false)))
            (fold_found-Exactly C T Q (λ d mov t. Tour-captured t) (λ d mov s. Slide-captured s)
              (λ d mov t. Tour-CanHop t) values fs hs)))

  abbrev pub ExactTurn : ℕ → Found → Type 0
  ExactTurn index =
      Exactly (CanCapture b.player_color board index) (Captures b.player_color board index)
        (Quiets b.player_color board index)

  module _ (index : ℕ) (p : PieceData) (at : get_elem? board index ≡ some p) where
    here :
        (P : PieceData → Type 0)
        → Own b.player_color board index p
        → P p ↔ ((q : PieceData) × Own b.player_color board index q × P q)
    here P own = (λ h. (p, own, h), λ (q, (e, _, _), h). let same : q ≡ p = cc in subst P same h)

    unowned : ¬ ((p.is_active ≡ true) × (p.color ≡ b.player_color)) → ExactTurn index none
    unowned other =
        (λ (q, (e, a, c), _). other (mine q e a c), λ mov (q, (e, a, c), _). other (mine q e a c))
      where
        mine :
            (q : PieceData)
            → get_elem? board index ≡ some q
            → q.is_active ≡ true
            → q.color ≡ b.player_color
            → (p.is_active ≡ true) × (p.color ≡ b.player_color)
        mine q e a c =
            let same : q ≡ p = cc in
            (sym (ap (λ r. r.is_active) same) ∙ a, sym (ap (λ r. r.color) same) ∙ c)

    own_turn-Exactly :
        p.color ≡ b.player_color → Holds (ExactTurn index) (get_legal_moves_piece pv sv b index)
    own_turn-Exactly color = elim (Bool-cases p.is_active) [
      | inl active ↦
          let own : Own b.player_color board index p = (at, active, color) in
          rw (get_legal_moves_piece-legal_from pv sv b size index p at active) (
            Holds-map _ (ExactTurn index) (legal_from pv sv b index p board)
              (λ found h.
                Exactly-map (here (Hopping index) own) (λ mov. here (λ q. Touring index q mov) own)
                  (λ mov. here (λ q. Sliding index q mov) own) found h)
              (legal_from-Exactly index p (omega (arith, get_elem?-lt board index at))))
      | inr empty ↦
          rw (get_legal_moves_piece_inactive pv sv b size index p at empty)
            (unowned (λ (active, _). cc))
    ]

    pub legal_turn-Exactly :
        (acc : Option (List Move) × Bool)
        → Holds
            (λ out. (f : Found) × ExactTurn index f × (out ≡ gather_found f acc))
            (legal_turn pv sv b index p acc)
    unfolding legal_turn
    legal_turn-Exactly acc = elim (Bool-cases (color_eq p.color b.player_color)) [
      | inr other ↦
          rw other (none, unowned (λ (_, c). color_ne p.color b.player_color other c), refl)
      | inl own ↦ rw own (
          Holds-then _ _ (get_legal_moves_piece pv sv b index) _
            (own_turn-Exactly (color_eq→≡ p.color b.player_color own))
            (λ found h. (found, h, refl)))
    ]
