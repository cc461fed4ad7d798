-- ===== src/Legal/Geometry.antt =====
-- The squares 0 to 31 and the offsets of src/game/mod.rs: four dark squares to a row, and every
-- second row shifted by half a square.
use psychic_fiesta.Prelude.{ℕ, suc, ◌↔◌, ◌*◌, ◌+◌, ◌-◌, ◌/◌, ◌%◌, ◌≤◌, ◌<◌, false}
use psychic_fiesta.Prelude.{◌≡◌, arith, ltb, if◌then◌else◌}
use psychic_fiesta.Prelude.Int.{pos, pos_part, ltb_ℤ}
use psychic_fiesta.Game.{Direction, up_left, up_right, down_left, down_right}
use psychic_fiesta.Legal.{at_edge, next_index}

-- The rows between a square and the side of the board that a direction leads to.
abbrev pub rows_left : Direction → ℕ → ℕ
rows_left up_left i = i / 4
rows_left up_right i = i / 4
rows_left down_left i = 7 - i / 4
rows_left down_right i = 7 - i / 4

pub next_row :
    (d : Direction) (i : ℕ)
    → i < 32
    → at_edge d i ≡ false
    → ltb_ℤ (next_index d i) (pos 0) ≡ false
    → pos_part (next_index d i) < 32
    → suc (rows_left d (pos_part (next_index d i))) ≤ rows_left d i
next_row up_left i h e n l = ground arith
next_row up_right i h e n l = ground arith
next_row down_left i h e n l = ground arith
next_row down_right i h e n l = ground arith

-- The row of a square, and its column counted in eighths of the board's width, as
-- ui/board.slint lays the squares out.
abbrev pub row : ℕ → ℕ
row i = i / 4

abbrev pub column : ℕ → ℕ
column i = 2 * (i % 4) + (if ltb (i % 8) 4 then 0 else 1)

-- `n` is the diagonal neighbour of `i` in the direction `d`.
abbrev pub Diagonal : Direction → ℕ → ℕ → Type 0
Diagonal up_left i n = (row n + 1 ≡ row i) × (column n + 1 ≡ column i)
Diagonal up_right i n = (row n + 1 ≡ row i) × (column n ≡ column i + 1)
Diagonal down_left i n = (row n ≡ row i + 1) × (column n + 1 ≡ column i)
Diagonal down_right i n = (row n ≡ row i + 1) × (column n ≡ column i + 1)

abbrev pub opposite_direction : Direction → Direction
opposite_direction up_left = down_right
opposite_direction up_right = down_left
opposite_direction down_left = up_right
opposite_direction down_right = up_left

-- The offset and the edge test together compute the diagonal neighbour: for two squares of the
-- board, the code steps from `i` in the direction `d` to `n` exactly when `n` is the neighbour of
-- `i` on that diagonal.
pub next_index-Diagonal :
    (d : Direction) (i n : ℕ)
    → i < 32
    → n < 32
    → ((at_edge d i ≡ false) × (next_index d i ≡ pos n)) ↔ Diagonal d i n
next_index-Diagonal up_left i n hi hn = (λ h. ground arith, λ h. ground arith)
next_index-Diagonal up_right i n hi hn = (λ h. ground arith, λ h. ground arith)
next_index-Diagonal down_left i n hi hn = (λ h. ground arith, λ h. ground arith)
next_index-Diagonal down_right i n hi hn = (λ h. ground arith, λ h. ground arith)

-- Seen from the other side of the table (square `i` becomes `31 - i`) a step is a step in the
-- opposite direction.
pub Diagonal-mirror :
    (d : Direction) (i n : ℕ)
    → i < 32
    → n < 32
    → Diagonal d i n
    → Diagonal (opposite_direction d) (31 - i) (31 - n)
Diagonal-mirror up_left i n hi hn h = ground arith
Diagonal-mirror up_right i n hi hn h = ground arith
Diagonal-mirror down_left i n hi hn h = ground arith
Diagonal-mirror down_right i n hi hn h = ground arith
