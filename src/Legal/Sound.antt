-- ===== src/Legal/Sound.antt =====
-- `check_move` reports only what the rules of the board allow, and `unwrap_unchecked` is safe in it.
use psychic_fiesta.Prelude.{ℕ, zero, suc, Bool, true, false, not, ◌||◌, Option, none, some}
use psychic_fiesta.Prelude.{List, [], ◌∷◌, ◌≡◌, inl, inr, refl, arith}
use psychic_fiesta.Prelude.{All, All-append, get_elem?, set, length}
use mathlib.Core.List.{concat-ne-nil}
use psychic_fiesta.Prelude.{Option-cases, lt→ltb}
use psychic_fiesta.Prelude.Int.{pos, pos_part, ltb_ℤ}
use psychic_fiesta.Prelude.Outcome.{done}
use psychic_fiesta.Game.{PieceColor, color_eq, PieceData, const_default, Move, Direction, values}
use psychic_fiesta.Legal.{Pieces, Found, Mover, Rec, only_captures}
use psychic_fiesta.Legal.{further_moves, take_piece, step_to, at_tile, check_body}
use psychic_fiesta.Legal.{
  check_move, at_edge, backwards, next_index, over_enemy, or_single, with_step, is_promoting,
}
use psychic_fiesta.Legal.Spec.{IsEmpty, IsEnemy, IsCapture, IsQuiet, Describes, Safe}
use psychic_fiesta.Legal.Spec.{Safe-bind, Safe-if, IsEnemy-lt}
use psychic_fiesta.Legal.Taken.{Kept, further_moves-Safe}

-- What a recursive call is assumed to do: a piece is being taken only where an enemy stands.
abbrev SafeRec : Mover → Rec → Type 0
SafeRec m call =
    (ps : Pieces) (i : ℕ) (is_king : Bool) (d : Direction) (is_taking : Bool)
    → (is_taking ≡ true → IsEnemy m ps i)
    → Safe (Describes m ps) (call ps i is_king d is_taking)

only_captures-id :
    (m : Mover) (ps : Pieces) (moves : List Move)
    → All (IsCapture m ps) moves
    → only_captures moves ≡ moves
unfolding only_captures
only_captures-id m ps [] h = refl
only_captures-id m ps (mov ∷ moves) (capturing, caps) =
    simp (capturing.taken, only_captures-id m ps moves caps)

over_enemy-Describes :
    (m : Mover) (ps : Pieces) (found : Found)
    → Describes m ps found
    → Describes m ps (over_enemy found)
over_enemy-Describes m ps none h = h
over_enemy-Describes m ps (some (moves, false)) h = h
over_enemy-Describes m ps (some (moves, true)) h = rw (only_captures-id m ps moves h.0) h

pub color_eq→≡ : (a b : PieceColor) → color_eq a b ≡ true → a ≡ b
color_eq→≡ a b h = ground arith

pub jumped : (a b : PieceColor) (t : Bool) → not (color_eq a b) || t ≡ false → a ≡ b
jumped a b t h = ground arith

module _ (call : Rec) (m : Mover) (safe : SafeRec m call) (ps : Pieces) where
  or_single-Describes :
      (i next : ℕ) (enemy : IsEnemy m ps i)
      → IsEmpty ps next
      → (further : Option (List Move)) → Kept m ps i enemy further
      → Describes m ps (or_single m i next further)
  or_single-Describes i next enemy empty none k = (
    (
      record {
        squares = i ∷ [];
        taken = refl;
        some_taken = λ e. cc;
        enemies = (enemy, tt);
        distinct = (tt, tt);
        from = refl;
        lands = inl empty;
      },
      tt,
    ),
    λ e. cc,
  )
  or_single-Describes i next enemy empty (some moves) k = k

  take_piece-Safe :
      (i : ℕ) (is_king : Bool) (next : ℕ)
      → IsEnemy m ps i
      → IsEmpty ps next
      → Safe (Describes m ps) (take_piece call m ps i is_king next)
  unfolding take_piece
  take_piece-Safe i is_king next enemy empty =
      let promoting = is_promoting m next in
      let beyond =
        λ (d : Direction). call (set ps i const_default) next (is_king || promoting) d false in
      rw (lt→ltb i (length ps) (IsEnemy-lt m ps i enemy)) (
        Safe-bind (Kept m ps i enemy) (Describes m ps)
          (further_moves beyond i promoting values none)
          (λ further. done (or_single m i next further))
          (further_moves-Safe m ps i enemy beyond promoting
            (λ d. safe _ next (is_king || promoting) d false (λ e. cc)) values none tt)
          (or_single-Describes i next enemy empty))

  with_step-Describes :
      (next : ℕ) (moves : List Move) (capturing : Bool)
      → IsEmpty ps next
      → Describes m ps (some (moves, capturing))
      → Describes m ps (with_step m next moves capturing)
  with_step-Describes next moves true empty h = h
  with_step-Describes next moves false empty h = (
    All-append (IsQuiet m ps) moves _ h.0 (record { taken = refl; from = refl; lands = empty }, tt),
    concat-ne-nil _ moves,
  )

  alone : (next : ℕ) → IsEmpty ps next → Describes m ps (with_step m next [] false)
  alone next empty = ((record { taken = refl; from = refl; lands = empty }, tt), λ e. cc)

  step_to-Safe :
      (is_king : Bool) (d : Direction) (next : ℕ)
      → IsEmpty ps next
      → Safe (Describes m ps) (step_to call m ps is_king d next)
  unfolding step_to
  step_to-Safe false d next empty = alone next empty
  step_to-Safe true d next empty =
      Safe-bind (Describes m ps) (Describes m ps) (call ps next true d false) _
        (safe ps next true d false (λ e. cc))
        (elim [
          | none ↦ λ h. alone next empty
          | some (moves, capturing) ↦ λ h. with_step-Describes next moves capturing empty h
        ])

  at_tile-Safe :
      (i : ℕ) (is_king : Bool) (d : Direction) (is_taking : Bool) (next : ℕ) (tile : PieceData)
      → (is_taking ≡ true → IsEnemy m ps i)
      → get_elem? ps next ≡ some tile
      → Safe (Describes m ps) (at_tile call m ps i is_king d is_taking next tile)
  unfolding at_tile
  at_tile-Safe i is_king d is_taking next tile pre e =
      Safe-if (Describes m ps) tile.is_active _ _
        (λ active.
          Safe-if (Describes m ps) (not (color_eq tile.color m.enemy_color) || is_taking) _ _
            (λ _. tt)
            (λ free.
              Safe-bind (Describes m ps) (Describes m ps) (call ps next is_king d true)
                (λ found. done (over_enemy found))
                (safe ps next is_king d true
                  (λ _. (tile, e, active, jumped tile.color m.enemy_color is_taking free)))
                (over_enemy-Describes m ps)))
        (λ empty.
          Safe-if (Describes m ps) is_taking _ _
            (λ t. take_piece-Safe i is_king next (pre t) (tile, e, empty))
            (λ _. step_to-Safe is_king d next (tile, e, empty)))

  check_body-Safe :
      (i : ℕ) (is_king : Bool) (d : Direction) (is_taking : Bool)
      → (is_taking ≡ true → IsEnemy m ps i)
      → Safe (Describes m ps) (check_body call m ps i is_king d is_taking)
  unfolding check_body
  check_body-Safe i is_king d is_taking pre =
      let next = next_index d i in
      Safe-if (Describes m ps) (at_edge d i || backwards m is_king d) _ _ (λ _. tt)
        (λ _.
          Safe-if (Describes m ps) (ltb_ℤ next (pos 0) || ltb_ℤ (pos (length ps)) next) _ _
            (λ _. tt)
            (λ _. elim (Option-cases (get_elem? ps (pos_part next))) [
              | inl e ↦ rw e tt
              | inr (tile, e) ↦ rw e (at_tile-Safe i is_king d is_taking (pos_part next) tile pre e)
            ]))

-- From any square in any direction, on any board and with any fuel, and with an enemy piece on that
-- square if it is being taken, `check_move` has no undefined behaviour, and where it returns moves,
-- they are at least one, and all are captures or all quiet moves, as the flag says: a quiet move ends
-- on an empty square; a capture takes enemy pieces of the board, none of them twice, and ends on an
-- empty square or on one that it emptied.
pub check_move-Safe :
    (fuel : ℕ) (m : Mover) (ps : Pieces) (i : ℕ) (is_king : Bool) (d : Direction) (is_taking : Bool)
    → (is_taking ≡ true → IsEnemy m ps i)
    → Safe (Describes m ps) (check_move fuel m ps i is_king d is_taking)
unfolding check_move
check_move-Safe zero m ps i is_king d is_taking pre = tt
check_move-Safe (suc fuel) m ps i is_king d is_taking pre =
    check_body-Safe (check_move fuel m) m (check_move-Safe fuel m) ps i is_king d is_taking pre
