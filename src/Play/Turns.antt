-- ===== src/Play/Turns.antt =====
-- Two games with at most one move on its way between them: what a click does to that, and the
-- arrival of the move.
use psychic_fiesta.Prelude.{
  ◌+◌, ◌-◌, if◌then◌else◌, ◌<◌, Bool, true, false, not, some, List, [], ◌∷◌, ◌++◌,
}
use psychic_fiesta.Prelude.{◌≡◌, refl, sym, ap, ◌∙◌, arith, All, length, get_elem?, ◌⊎◌, inl, inr}
use psychic_fiesta.Prelude.Outcome.{done}
use psychic_fiesta.Prelude.Int.{ℤ}
use psychic_fiesta.Prelude.Holds.{Holds-done}
use psychic_fiesta.Game.{PieceData, Move, GameAction, move_piece}
use psychic_fiesta.Game.Reverse.{IsOnBoard}
use psychic_fiesta.Legal.{Pieces}
use psychic_fiesta.Legal.Spec.{Safe}
use psychic_fiesta.Rows.{VecModel}
use psychic_fiesta.Board
use psychic_fiesta.Board.{Board, BoardSquare, default_setup, start_new_game}
use psychic_fiesta.Board.Moves.{get_legal_moves}
use psychic_fiesta.Board.AllPieces.{Offered, get_legal_moves-Offered}
use psychic_fiesta.Board.Inside.{Starts, capture-Starts, quiet-Starts}
use psychic_fiesta.Board.Perform.{moved, taken_squares, move_piece_lem}
use psychic_fiesta.Play.{GameData, opponent_acts}
use psychic_fiesta.Legal.Listing.{Listed}
use psychic_fiesta.Play.Clicks.{Unplayed, Clicked}
use psychic_fiesta.Play.Mirrored.{Mirrored, Mirrored-swap, captured-inside}
use psychic_fiesta.Play.Match.{pieces_of, opponent_acts-Mirrored}
use mathlib.Core.Path.{subst}

pub Listed-All :
    (P : Move → Type 0) (mov : Move) (moves : List Move) → Listed mov moves → All P moves → P mov
Listed-All P mov [] l h = absurd l
Listed-All P mov (x ∷ xs) (inl e) (hx, hs) = subst P (sym e) hx
Listed-All P mov (x ∷ xs) (inr l) (hx, hs) = Listed-All P mov xs l hs

pub append_cancel : {A : Type 0} (xs ys zs : List A) → xs ++ ys ≡ xs ++ zs → ys ≡ zs
append_cancel [] ys zs e = e
append_cancel (x ∷ xs) ys zs e = append_cancel xs ys zs (cc e)

pub append_same : {A : Type 0} (xs ys : List A) → xs ++ ys ≡ xs → ys ≡ []
append_same [] ys e = e
append_same (x ∷ xs) ys e = append_same xs ys (cc e)

module _ (pv : VecModel PieceData) (sv : VecModel BoardSquare) where
  -- A move from a piece of the board is performed as `moved` says.
  pub performed :
      (mov : Move) (b b' : Board pv sv)
      → length (pv.contents b.pieces) ≡ 32
      → (p : PieceData) → get_elem? (pv.contents b.pieces) mov.index ≡ some p
      → IsOnBoard mov
      → Board.move_piece pv sv (record { board_move = mov }) b ≡ done b'
      → pv.contents b'.pieces ≡ moved mov p (pv.contents b.pieces)
  performed mov b b' size p at (hi, he, hc) e =
      let (b'', e'', c) =
        move_piece_lem pv sv (record { board_move = mov }) b p at (rw size he)
          (subst (λ n. All (λ x. x < n) (taken_squares mov)) (sym size)
            (captured-inside mov.captured hc)) in
      Holds-done (λ b₁. pv.contents b₁.pieces ≡ moved mov p (pv.contents b.pieces))
        (Board.move_piece pv sv (record { board_move = mov }) b) b' (rw e'' c) e

  -- One task of the game waits for the opponent, and none while the player has the turn.
  abbrev pub Waits : GameData pv sv → Type 0
  Waits s = s.waiting ≡ (if s.is_player_turn then 0 else 1)

  -- A player's move on the way to the other: neither has the turn, and the boards were mirrored
  -- before it.
  abbrev pub Flying : GameData pv sv → GameData pv sv → List GameAction → Type 0
  Flying s t queue =
      (mov : Move) × (queue ≡ move_piece mov ∷ [])
      × (s.is_player_turn ≡ false)
      × (t.is_player_turn ≡ false)
      × Waits s
      × Waits t
      × IsOnBoard mov
      × (xs : Pieces) × (p : PieceData) × (get_elem? xs mov.index ≡ some p)
      × (pieces_of pv sv s ≡ moved mov p xs)
      × Mirrored xs (pieces_of pv sv t)

  pub offered-Starts :
      (b : Board pv sv) (moves : List Move) (mov : Move) (size : length (pv.contents b.pieces) ≡ 32)
      → get_legal_moves pv sv b ≡ done (some moves)
      → Listed mov moves
      → Starts pv sv b size mov
  offered-Starts b moves mov size legal l =
      let safe : Safe (Offered pv sv b size) (done (some moves)) =
        rw legal at ((get_legal_moves-Offered pv sv b size).0) in
      elim safe.0 [
        | inl h ↦ capture-Starts pv sv b size mov (Listed-All _ mov moves l h)
        | inr h ↦ quiet-Starts pv sv b size mov (Listed-All _ mov moves l h)
      ]

  -- A click on a board of 32 squares: nothing happened but to the marks, or a move is now on its way.
  click-Flying :
      (index : ℤ) (s s' t : GameData pv sv)
      → Clicked pv sv index s s'
      → Mirrored (pieces_of pv sv s) (pieces_of pv sv t)
      → s.is_player_turn ≡ not t.is_player_turn
      → Waits s
      → Waits t
      → ((s'.sent ≡ s.sent)
          × (s'.is_player_turn ≡ s.is_player_turn)
          × (pieces_of pv sv s' ≡ pieces_of pv sv s)
          × (s'.waiting ≡ s.waiting))
        ⊎ ((mov : Move) × (s'.sent ≡ s.sent ++ (move_piece mov ∷ []))
            × Flying s' t (move_piece mov ∷ []))
  click-Flying index s s' t (inl (sent, turn, same, wait)) m turns ws wt =
      inl (sent, turn, ap pv.contents same, wait)
  click-Flying index s s' t
        (inr (mine, moves, legal, (mov, l, _, _, sent, over, wait, b, e, shown))) m turns ws wt =
      let none_waits : s.waiting ≡ 0 = rw mine at ws in
      let (p, at, inside) = offered-Starts s.board moves mov m.0 legal l in
      inr (
        mov,
        sent,
        (
          mov,
          refl,
          over,
          ground (arith, sym turns ∙ mine),
          wait ∙ ap (λ n. n + 1) none_waits ∙ ap (λ b. if b then 0 else 1) (sym over),
          wt,
          inside,
          pieces_of pv sv s,
          p,
          at,
          ap pv.contents shown
              ∙ performed mov (record s.board { selected_square = index }) b m.0 p at inside e,
          m,
        ),
      )

  -- The two games between two messages: mirrored boards, one of the players has the turn, and a
  -- task of the other waits.
  abbrev pub Settled : GameData pv sv → GameData pv sv → List GameAction → List GameAction → Type 0
  Settled s t q r =
      Mirrored (pieces_of pv sv s) (pieces_of pv sv t)
      × (s.is_player_turn ≡ not t.is_player_turn)
      × Waits s
      × Waits t
      × (q ≡ [])
      × (r ≡ [])

  -- `q` is on the way from `s` to `t`, and `r` back.
  abbrev pub InTurn : GameData pv sv → GameData pv sv → List GameAction → List GameAction → Type 0
  InTurn s t q r = Settled s t q r ⊎ ((Flying s t q × (r ≡ [])) ⊎ (Flying t s r × (q ≡ [])))

  pub InTurn-swap : (s t : GameData pv sv) (q r : List GameAction) → InTurn s t q r → InTurn t s r q
  InTurn-swap s t q r (inl (m, turns, ws, wt, e, e')) =
      inl (Mirrored-swap _ _ m, ground (arith, turns), wt, ws, e', e)
  InTurn-swap s t q r (inr (inl f)) = inr (inr f)
  InTurn-swap s t q r (inr (inr f)) = inr (inl f)

  still-Waits :
      (s s' : GameData pv sv)
      → s'.is_player_turn ≡ s.is_player_turn
      → s'.waiting ≡ s.waiting
      → Waits s
      → Waits s'
  still-Waits s s' turn wait w = wait ∙ w ∙ ap (λ b. if b then 0 else 1) (sym turn)

  -- A click of a player that has no turn.
  pub waiting-click :
      (index : ℤ) (s s' : GameData pv sv)
      → Clicked pv sv index s s'
      → s.is_player_turn ≡ false
      → Unplayed pv sv s s'
  waiting-click index s s' (inl u) off = u
  waiting-click index s s' (inr (mine, _, _, _)) off = absurd (cc (mine, off))

  pub clicks-InTurn :
      (index : ℤ) (s s' t : GameData pv sv) (q r new : List GameAction)
      → Clicked pv sv index s s'
      → s'.sent ≡ s.sent ++ new
      → InTurn s t q r
      → InTurn s' t (q ++ new) r
  clicks-InTurn index s s' t q r new c added (inl (m, turns, ws, wt, e, e')) =
      elim (click-Flying index s s' t c m turns ws wt) [
        | inl (same, turn, pieces, wait) ↦
            let nothing = append_same s.sent new (sym added ∙ same) in
            inl (
              subst (λ xs. Mirrored xs (pieces_of pv sv t)) (sym pieces) m,
              turn ∙ turns,
              still-Waits s s' turn wait ws,
              wt,
              rw (nothing, e) refl,
              e',
            )
        | inr (mov, sent, f) ↦
            let one = append_cancel s.sent new (move_piece mov ∷ []) (sym added ∙ sent) in
            inr (inl (rw (one, e) f, e'))
      ]
  clicks-InTurn index s s' t q r new c added
        (inr (inl ((mov, one, off, off', ws, wt, inside, xs, p, at, shape, m), e))) =
      let (same, turn, pieces, wait) = waiting-click index s s' c off in
      let nothing = append_same s.sent new (sym added ∙ same) in
      inr (
        inl (
          (
            mov,
            rw (nothing, one) refl,
            turn ∙ off,
            off',
            still-Waits s s' turn wait ws,
            wt,
            inside,
            xs,
            p,
            at,
            ap pv.contents pieces ∙ shape,
            m,
          ),
          e,
        ))
  clicks-InTurn index s s' t q r new c added
        (inr (inr ((mov, one, off, off', ws, wt, inside, xs, p, at, shape, m), e))) =
      let (same, turn, pieces, wait) = waiting-click index s s' c off' in
      let nothing = append_same s.sent new (sym added ∙ same) in
      inr (
        inr (
          (
            mov,
            one,
            off,
            turn ∙ off',
            ws,
            still-Waits s s' turn wait wt,
            inside,
            xs,
            p,
            at,
            shape,
            subst (λ ys. Mirrored xs (pv.contents ys)) (sym pieces) m,
          ),
          rw (nothing, e) refl,
        ))

  -- The action on its way is performed: the game that receives it does not panic, and the boards are
  -- mirrored again.
  pub receives-Mirrored :
      (checks : Bool) (action : GameAction) (s t : GameData pv sv) (rest r : List GameAction)
      → InTurn s t (action ∷ rest) r
      → (t' : GameData pv sv) × (opponent_acts pv sv checks action t ≡ done t')
        × Mirrored (pieces_of pv sv s) (pieces_of pv sv t')
        × (rest ≡ [])
        × (t'.is_player_turn ≡ true)
        × (s.is_player_turn ≡ false)
        × (r ≡ [])
        × Waits s
        × Waits t'
        × (t.waiting ≡ 1)
  receives-Mirrored checks action s t rest r (inl (_, _, _, _, e, _)) = absurd (cc e)
  receives-Mirrored checks action s t rest r (inr (inr (_, e))) = absurd (cc e)
  receives-Mirrored checks action s t rest r
        (inr (inl ((mov, one, off, off', ws, wt, inside, xs, p, at, shape, m), e))) =
      let one_waits : t.waiting ≡ 1 = rw off' at wt in
      let (t', acts, kept, turn, wait) =
        opponent_acts-Mirrored pv sv checks mov p xs t m inside at in
      let first : action ≡ move_piece mov = cc one in
      (
        t',
        rw first acts,
        subst (λ ys. Mirrored ys (pieces_of pv sv t')) (sym shape) kept,
        cc one,
        turn,
        off,
        e,
        ws,
        wait ∙ ap (λ n. n - 1) one_waits ∙ ap (λ b. if b then 0 else 1) (sym turn),
        one_waits,
      )
