-- ===== src/Legal/Rules.antt =====
-- What a player may play on a board, by the rules.
use psychic_fiesta.Prelude.{ℕ, true, some, ◌≡◌, ◌⊎◌, get_elem?}
use psychic_fiesta.Game.{PieceColor, get_opposite, PieceData, Move, Direction}
use psychic_fiesta.Legal.{Pieces, Mover}
use psychic_fiesta.Legal.Tours.{CanHop, Tour, Slide}

module _ (player : PieceColor) (board : Pieces) where
  -- The piece `p` on `index`, played by `player`.
  abbrev mover_of : ℕ → PieceData → Mover
  mover_of index p = record {
    start = index;
    local_player_color = player;
    enemy_color = get_opposite p.color;
  }

  -- The piece `p` on `index` may capture; `mov` is one of its captures, or of its quiet moves.
  abbrev pub PieceHops : ℕ → PieceData → Type 0
  PieceHops index p = (d : Direction) × CanHop (mover_of index p) board p.is_king d index

  abbrev pub PieceTours : ℕ → PieceData → Move → Type 0
  PieceTours index p mov = (d : Direction) × Tour (mover_of index p) board p.is_king d index mov

  abbrev pub PieceSlides : ℕ → PieceData → Move → Type 0
  PieceSlides index p mov = (d : Direction) × Slide (mover_of index p) board p.is_king d mov index

  -- `p` stands on `index`, active and of the player's colour.
  abbrev pub Own : ℕ → PieceData → Type 0
  Own index p = (get_elem? board index ≡ some p) × (p.is_active ≡ true) × (p.color ≡ player)

  abbrev pub CanCapture : ℕ → Type 0
  CanCapture index = (p : PieceData) × Own index p × PieceHops index p

  abbrev pub Captures : ℕ → Move → Type 0
  Captures index mov = (p : PieceData) × Own index p × PieceTours index p mov

  abbrev pub Quiets : ℕ → Move → Type 0
  Quiets index mov = (p : PieceData) × Own index p × PieceSlides index p mov

  -- What the rules let the player play: a capture by one of the player's pieces, or if none of those
  -- can capture, a quiet move of one of them.
  abbrev pub Legal : Move → Type 0
  Legal mov =
      ((index : ℕ) × Captures index mov)
      ⊎ (((index : ℕ) → ¬ CanCapture index) × ((index : ℕ) × Quiets index mov))
