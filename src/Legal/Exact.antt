-- ===== src/Legal/Exact.antt =====
-- `check_move` finds the moves that the rules describe, each of them and no others.
use psychic_fiesta.Prelude.{ℕ, zero, suc, ◌<◌, Bool, true, false, ◌||◌, Option, none, some}
use psychic_fiesta.Prelude.{◌≡◌, ◌↔◌, refl, arith}
use psychic_fiesta.Prelude.{get_elem?, length}
use psychic_fiesta.Prelude.{get_elem?-lt}
use psychic_fiesta.Prelude.Int.{ℤ, pos, negsuc, pos_part, ltb_ℤ}
use psychic_fiesta.Prelude.Outcome.{done, or_panic}
use psychic_fiesta.Legal.{at_edge, backwards, next_index, check_body, check_move}
use psychic_fiesta.Legal.Ends.{or_false_left}
use psychic_fiesta.Legal.Geometry.{next_index-Diagonal}
use psychic_fiesta.Legal.Tours.{backwards-Goes}
use psychic_fiesta.Legal.Ahead.{CanHop-Ahead, Slide-Ahead}
use psychic_fiesta.Prelude.Holds.{Holds, Holds-if, Holds-bind}
use psychic_fiesta.Game.{Direction}
use psychic_fiesta.Legal.{Pieces, Mover, Rec}
use psychic_fiesta.Legal.Tile.{at_tile-Exact}
use psychic_fiesta.Legal.Taking.{ExactAt, ExactRec}
use psychic_fiesta.Legal.Tours.{Ahead}

or_false_right : (a b : Bool) → a || b ≡ false → b ≡ false
or_false_right a b h = ground arith

or_panic-done : {A : Type 0} (o : Option A) (a : A) → or_panic o ≡ done a → o ≡ some a
or_panic-done none a e = cc
or_panic-done (some x) a e = cc

pos_part-pos : (z : ℤ) → ltb_ℤ z (pos 0) ≡ false → z ≡ pos (pos_part z)
pos_part-pos (pos n) h = refl
pos_part-pos (negsuc n) h = ground arith

not_outside : (n : ℕ) → n < 32 → ltb_ℤ (pos n) (pos 0) || ltb_ℤ (pos 32) (pos n) ≡ true → ⊥
not_outside n h e = ground arith

module _ (m : Mover) (ps : Pieces) (size : length ps ≡ 32) (king : Bool) (d : Direction) (i : ℕ)
    (small : i < 32) where
  -- On the last square of a diagonal nothing is found.
  nothing-Ahead :
      (is_taking : Bool) → ((n : ℕ) → ¬ Ahead m king d i n) → ExactAt m ps i king d is_taking none
  nothing-Ahead true edge = (λ (n, a, _). edge n a, λ mov q. q)
  nothing-Ahead false edge = (
    λ h. let (n, a) = CanHop-Ahead m ps king d i h in edge n a,
    λ mov s. let (n, a) = Slide-Ahead m ps king d i mov s in edge n a,
  )

  ahead :
      (n : ℕ)
      → n < 32
      → ((at_edge d i ≡ false) × (backwards m king d ≡ false) × (next_index d i ≡ pos n))
        ↔ Ahead m king d i n
  ahead n inside = (
    λ (e, b, q).
        ((backwards-Goes m king d).0 b, (next_index-Diagonal d i n small inside).0 (e, q), inside),
    λ (g, g', _).
        let (e, q) = (next_index-Diagonal d i n small inside).1 g' in
        (e, (backwards-Goes m king d).1 g, q),
  )

  refused : at_edge d i || backwards m king d ≡ true → (n : ℕ) → ¬ Ahead m king d i n
  refused stop n a = let (e, b, q) = (ahead n a.2).1 a in cc

  outside :
      ltb_ℤ (next_index d i) (pos 0) || ltb_ℤ (pos (length ps)) (next_index d i) ≡ true
      → (n : ℕ) → ¬ Ahead m king d i n
  outside stop n a =
      let (e, b, q) = (ahead n a.2).1 a in
      let inside = a.2 in not_outside n inside (rw (q, size) at stop)

  check_body-Exact :
      (call : Rec)
      → ExactRec m call
      → (is_taking : Bool)
      → Holds (ExactAt m ps i king d is_taking) (check_body call m ps i king d is_taking)
  unfolding check_body
  check_body-Exact call exact is_taking =
      let next = next_index d i in
      Holds-if _ (at_edge d i || backwards m king d) _ _
        (λ stop. nothing-Ahead is_taking (refused stop))
        (λ free.
          Holds-if _ (ltb_ℤ next (pos 0) || ltb_ℤ (pos (length ps)) next) _ _
            (λ stop. nothing-Ahead is_taking (outside stop))
            (λ within. Holds-bind _ (or_panic (get_elem? ps (pos_part next))) _ (λ tile r.
              let at = or_panic-done (get_elem? ps (pos_part next)) tile r in
              let inside : pos_part next < 32 = omega (arith, get_elem?-lt ps (pos_part next) at) in
              at_tile-Exact call m exact ps size king d i (pos_part next) small
                ((ahead (pos_part next) inside).0 (
                  or_false_left _ _ free,
                  or_false_right _ _ free,
                  pos_part-pos next (or_false_left _ _ within),
                ))
                is_taking tile at)))

-- On a board of 32 squares, from a square of the board, what `check_move` returns is exact, for every
-- fuel: nothing, if the piece can neither capture nor step in the direction; the captures of that
-- direction, each of them and nothing else, if it can capture there; and else the steps, each of them
-- and nothing else. A capture is a tour: jump after jump, with the pieces taken off at once, a man
-- that reaches the last row going on as a king, for as long as there is a further jump. Where a piece
-- is being taken on the square, what is found are the captures that take it.
pub check_move-Exact : (fuel : ℕ) (m : Mover) → ExactRec m (check_move fuel m)
unfolding check_move
check_move-Exact zero m ps i king d is_taking size small = tt
check_move-Exact (suc fuel) m ps i king d is_taking size small =
    check_body-Exact m ps size king d i small (check_move fuel m) (check_move-Exact fuel m)
      is_taking
