-- ===== src/Game/Tests.antt =====
-- A move reversed.
use psychic_fiesta.Prelude.{true, false, some, [], ◌∷◌, ◌≡◌, refl}
use psychic_fiesta.Prelude.Outcome.{done}
use psychic_fiesta.Game.{Move, reverse}

abbrev capture : Move
capture = record { index = 22; end = 4; promoted = false; captured = some (9 ∷ 18 ∷ []) }

reverse-capture :
    reverse true capture
    ≡ done (record { index = 9; end = 27; promoted = false; captured = some (22 ∷ 13 ∷ []) })
unfolding reverse
reverse-capture = refl
