-- ===== src/Legal/Tests.antt =====
-- Runs of `check_move` on small boards.
use psychic_fiesta.Prelude.{ℕ, true, false, none, some, [], ◌∷◌, replicate, set}
use psychic_fiesta.Prelude.{◌≡◌, ◌↔◌, refl, arith}
use psychic_fiesta.Prelude.Outcome.{done, panic}
use psychic_fiesta.Game.{PieceColor, white, black, PieceData, const_default}
use psychic_fiesta.Prelude.Int.{pos}
use psychic_fiesta.Game.{up_left, up_right, down_left}
use psychic_fiesta.Legal.{at_edge, next_index}
use psychic_fiesta.Legal.Spec.{Safe, Describes}
use psychic_fiesta.Legal.Sound.{check_move-Safe}
use psychic_fiesta.Legal.Ends.{Ends, check_move-Ends}
use psychic_fiesta.Legal.Panics.{check_move-panic}
use psychic_fiesta.Legal.Taking.{ExactAt}
use psychic_fiesta.Legal.Total.{check_move-ExactAt}
use psychic_fiesta.Legal.Geometry.{Diagonal, next_index-Diagonal}
use psychic_fiesta.Legal.{
  Pieces, Found, Mover, check_move, only_captures, check_body, at_tile, take_piece, step_to,
}

abbrev empty_board : Pieces
empty_board = replicate 32 const_default

abbrev man : PieceColor → PieceData
man c = record { is_active = true; is_king = false; color = c }

abbrev by_white : ℕ → Mover
by_white start = record { start = start; local_player_color = white; enemy_color = black }

-- A white man on 22 jumps the men on 18 and 9.
abbrev two_jumps : Pieces
two_jumps = set (set (set empty_board 22 (man white)) 18 (man black)) 9 (man black)

check_move_two :
    check_move 272 (by_white 22) two_jumps 22 false up_left false
    ≡ done (
        some (
          record { index = 22; end = 4; promoted = false; captured = some (9 ∷ 18 ∷ []) } ∷ [],
          true,
        ))
unfolding check_move check_body at_tile only_captures take_piece step_to
check_move_two = refl

check_move_one :
    check_move 272 (by_white 20) (set empty_board 20 (man white)) 20 false up_right false
    ≡ done (some (record { index = 20; end = 17; promoted = false; captured = none } ∷ [], false))
unfolding check_move check_body at_tile only_captures take_piece step_to
check_move_one = refl

check_move-Safe_example :
    Safe
      (Describes (by_white 22) two_jumps)
      (check_move 272 (by_white 22) two_jumps 22 false up_left false)
check_move-Safe_example =
    check_move-Safe 272 (by_white 22) two_jumps 22 false up_left false (λ e. cc)

check_move-Ends_example : Ends (check_move 272 (by_white 22) two_jumps 22 false up_left false)
check_move-Ends_example =
    check_move-Ends 272 (by_white 22) two_jumps 22 false up_left false refl (omega arith) (λ e. cc)
      (omega arith)

-- A white king in the corner.
abbrev king_in_corner : Pieces
king_in_corner = set empty_board 28 (record (man white) { is_king = true })

check_move-panic_example :
    check_move 272 (by_white 28) king_in_corner 28 true down_left false ≡ panic
check_move-panic_example = check_move-panic 271 (by_white 28) king_in_corner true false refl refl

abbrev man_in_corner : Pieces
man_in_corner = set two_jumps 28 (man white)

next_index-Diagonal_example :
    ((at_edge up_left 22 ≡ false) × (next_index up_left 22 ≡ pos 18)) ↔ Diagonal up_left 22 18
next_index-Diagonal_example = next_index-Diagonal up_left 22 18 (omega arith) (omega arith)

check_move-ExactAt_example :
    (found : Found) × (check_move 272 (by_white 22) man_in_corner 22 false up_left false
      ≡ done found)
    × ExactAt (by_white 22) man_in_corner 22 false up_left false found
check_move-ExactAt_example =
    check_move-ExactAt 272 (by_white 22) man_in_corner 22 false up_left refl (omega arith)
      (omega arith) (man white, refl, refl, refl) (omega arith)
