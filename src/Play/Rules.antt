-- ===== src/Play/Rules.antt =====
-- A game by the rules, without messages and windows: what a match of two processes is compared with.
use psychic_fiesta.Prelude.{some, ◌≡◌, get_elem?}
use psychic_fiesta.Game.{PieceColor, white, black, get_opposite, PieceData, Move}
use psychic_fiesta.Legal.{Pieces}
use psychic_fiesta.Legal.Rules.{Legal}
use psychic_fiesta.Board.{default_setup}
use psychic_fiesta.Board.Perform.{moved}
use psychic_fiesta.Play.Mirrored.{Mirrored}

-- The positions that a game reaches, with the player of colour `c` to move: that player sees the board
-- `xs` and the other one `ys`. White opens from the starting position; a player who has the turn
-- makes a legal move on the board as that player sees it, and the other one then sees its mirror image
-- and has the turn.
pub data Played : PieceColor → Pieces → Pieces → Type 0 where
  opening :
      {c : PieceColor} {xs ys : Pieces}
      → c ≡ white
      → xs ≡ default_setup white
      → ys ≡ default_setup black
      → Played c xs ys
  moves :
      {c c' : PieceColor} {xs ys xs' ys' : Pieces} (mov : Move) (p : PieceData)
      → Played c xs ys
      → Legal c xs mov
      → get_elem? xs mov.index ≡ some p
      → xs' ≡ moved mov p xs
      → Mirrored xs' ys'
      → c' ≡ get_opposite c
      → Played c' ys' xs'
