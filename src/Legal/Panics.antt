-- ===== src/Legal/Panics.antt =====
-- Where `check_move` panics: `next > pieces.len()` lets 32 through, which is the step down and left
-- from square 28.
use psychic_fiesta.Prelude.{
  ℕ, zero, suc, ◌<◌, Bool, true, false, not, ◌&&◌, ◌||◌, Option, none, some,
}
use psychic_fiesta.Prelude.{List, [], ◌∷◌, ◌≡◌, ◌≢◌, refl, ◌∙◌, inl, inr, arith, if◌then◌else◌}
use psychic_fiesta.Prelude.{length, length-set, get_elem?, set, get_elem?-out, get_elem?-total}
use psychic_fiesta.Prelude.{get_elem?-set_ne, lt→ltb, Option-cases}
use psychic_fiesta.Prelude.Int.{pos, pos_part, ltb_ℤ}
use psychic_fiesta.Prelude.Outcome.{Outcome, done, panic, undefined, stuck, ◌>>=◌}
use psychic_fiesta.Game.{color_eq, PieceData, const_default, Move, Direction}
use psychic_fiesta.Game.{up_left, up_right, down_left, down_right, values}
use psychic_fiesta.Legal.{Pieces, Found, Mover, Rec, push_captured, keep_further, further_moves}
use psychic_fiesta.Legal.{append_moves, take_piece, step_to, at_tile, check_body, check_move}
use psychic_fiesta.Legal.{at_edge, backwards, next_index, over_enemy, is_promoting}
use psychic_fiesta.Legal.Ends.{or_false_left}

-- On a board of 32 squares `check_move` panics from square 28 in the direction down and left, for any
-- piece that may go down.
pub check_move-panic :
    (fuel : ℕ) (m : Mover) (ps : Pieces) (is_king is_taking : Bool)
    → length ps ≡ 32
    → backwards m is_king down_left ≡ false
    → check_move (suc fuel) m ps 28 is_king down_left is_taking ≡ panic
unfolding check_move check_body
check_move-panic fuel m ps is_king is_taking size free =
    rw (free, size, get_elem?-out ps 32 (omega arith))

abbrev pub Calm {ℓ} : {A : Type ℓ} → Outcome A → Type 0
Calm panic = ⊥
Calm _ = Unit

pub Calm-bind {ℓ κ} :
    {A : Type ℓ} {B : Type κ} (r : Outcome A) (f : A → Outcome B)
    → Calm r
    → ((a : A) → Calm (f a))
    → Calm (r >>= f)
Calm-bind (done a) f h k = k a
Calm-bind panic f h k = absurd h
Calm-bind undefined f h k = tt
Calm-bind stuck f h k = tt

pub Calm-if {ℓ} :
    {A : Type ℓ} (b : Bool) (x y : Outcome A)
    → (b ≡ true → Calm x)
    → (b ≡ false → Calm y)
    → Calm (if b then x else y)
Calm-if true x y h k = h refl
Calm-if false x y h k = k refl

push_captured-Calm :
    (i : ℕ) (promoting : Bool) (moves : List Move) → Calm (push_captured i promoting moves)
unfolding push_captured
push_captured-Calm i promoting [] = tt
push_captured-Calm i promoting (mov ∷ moves) = elim (Option-cases mov.captured) [
  | inl e ↦ rw e tt
  | inr (xs, e) ↦ rw e (
      Calm-bind (push_captured i promoting moves) _ (push_captured-Calm i promoting moves)
        (λ _. tt))
]

keep_further-Calm :
    (i : ℕ) (promoting : Bool) (acc : Option (List Move)) (found : Found)
    → Calm (keep_further i promoting acc found)
unfolding keep_further
keep_further-Calm i promoting acc none = tt
keep_further-Calm i promoting acc (some (moves, false)) = tt
keep_further-Calm i promoting acc (some (moves, true)) =
    Calm-bind (push_captured i promoting moves) (λ pushed. done (append_moves acc pushed))
      (push_captured-Calm i promoting moves) (λ _. tt)

further_moves-Calm :
    (call : Direction → Outcome Found) (i : ℕ) (promoting : Bool)
    → ((d : Direction) → Calm (call d))
    → (ds : List Direction) (acc : Option (List Move))
    → Calm (further_moves call i promoting ds acc)
unfolding further_moves
further_moves-Calm call i promoting h [] acc = tt
further_moves-Calm call i promoting h (d ∷ ds) acc = Calm-bind (call d) _ (h d) (λ found.
    Calm-bind (keep_further i promoting acc found) _ (keep_further-Calm i promoting acc found)
      (λ acc'. further_moves-Calm call i promoting h ds acc'))

-- Square 28 holds a piece that the mover cannot take.
abbrev pub Guarded : Mover → Pieces → Type 0
Guarded m ps =
    (t : PieceData) × (get_elem? ps 28 ≡ some t)
    × (t.is_active ≡ true)
    × (color_eq t.color m.enemy_color ≡ false)

-- Any other step is refused or stays on the board.
step_inside :
    (d : Direction) (i : ℕ)
    → i < 32
    → i ≢ 28
    → at_edge d i ≡ false
    → ltb_ℤ (next_index d i) (pos 0) || ltb_ℤ (pos 32) (next_index d i) ≡ false
    → pos_part (next_index d i) < 32
step_inside up_left i h n e r = ground arith
step_inside up_right i h n e r = ground arith
step_inside down_left i h n e r = ground arith
step_inside down_right i h n e r = ground arith

abbrev CalmRec : Mover → Rec → Type 0
CalmRec m call =
    (ps : Pieces) (i : ℕ) (is_king : Bool) (d : Direction) (is_taking : Bool)
    → length ps ≡ 32
    → Guarded m ps
    → i < 32
    → i ≢ 28
    → Calm (call ps i is_king d is_taking)

module _ (call : Rec) (m : Mover) (calm : CalmRec m call) (ps : Pieces) (size : length ps ≡ 32)
    (guard : Guarded m ps) (i : ℕ) (is_king : Bool) (d : Direction) (is_taking : Bool)
    (small : i < 32) (away : i ≢ 28) where
  -- A tile that is empty or an enemy's is not square 28.
  not_guard :
      (next : ℕ) (tile : PieceData)
      → get_elem? ps next ≡ some tile
      → tile.is_active && not (color_eq tile.color m.enemy_color) ≡ false
      → next ≢ 28
  not_guard next tile e free at = ground (arith, guard.1, guard.2, guard.3, rw at at e)

  take_piece-Calm : (next : ℕ) → next < 32 → next ≢ 28 → Calm (take_piece call m ps i is_king next)
  unfolding take_piece
  take_piece-Calm next inside ne =
      let promoting = is_promoting m next in
      let ps' : Pieces = set ps i const_default in
      let beyond = λ (d' : Direction). call ps' next (is_king || promoting) d' false in
      let size' : length ps' ≡ 32 = length-set ps i const_default ∙ size in
      let guard' : Guarded m ps' =
        (guard.0, get_elem?-set_ne ps i 28 const_default away ∙ guard.1, guard.2, guard.3) in
      rw (lt→ltb i (length ps) (omega arith)) (
        Calm-bind (further_moves beyond i promoting values none) _
          (further_moves-Calm beyond i promoting
            (λ d'. calm ps' next (is_king || promoting) d' false size' guard' inside ne) values
            none)
          (λ _. tt))

  step_to-Calm : (next : ℕ) → next < 32 → next ≢ 28 → Calm (step_to call m ps is_king d next)
  unfolding step_to
  step_to-Calm next inside ne =
      Calm-if is_king _ _
        (λ _.
          Calm-bind (call ps next is_king d false) _
            (calm ps next is_king d false size guard inside ne)
            (elim [ none ↦ tt | some (moves, capturing) ↦ tt ]))
        (λ _. tt)

  at_tile-Calm :
      (next : ℕ) (tile : PieceData)
      → next < 32
      → get_elem? ps next ≡ some tile
      → Calm (at_tile call m ps i is_king d is_taking next tile)
  unfolding at_tile
  at_tile-Calm next tile inside e =
      Calm-if tile.is_active _ _
        (λ active.
          Calm-if (not (color_eq tile.color m.enemy_color) || is_taking) _ _ (λ _. tt)
            (λ free.
              Calm-bind (call ps next is_king d true) (λ found. done (over_enemy found))
                (calm ps next is_king d true size guard inside
                  (not_guard next tile e (ground arith)))
                (λ _. tt)))
        (λ empty.
          let ne = not_guard next tile e (ground arith) in
          Calm-if is_taking _ _ (λ _. take_piece-Calm next inside ne)
            (λ _. step_to-Calm next inside ne))

  check_body-Calm : Calm (check_body call m ps i is_king d is_taking)
  unfolding check_body
  check_body-Calm =
      let next = next_index d i in
      Calm-if (at_edge d i || backwards m is_king d) _ _ (λ _. tt)
        (λ free.
          Calm-if (ltb_ℤ next (pos 0) || ltb_ℤ (pos (length ps)) next) _ _ (λ _. tt)
            (λ within.
              let inside =
                step_inside d i small away (or_false_left _ _ free) (rw size at within) in
              let (tile, e) = get_elem?-total ps (pos_part next) (rw size inside) in
              rw e (at_tile-Calm (pos_part next) tile inside e)))

pub check_move-CalmRec : (fuel : ℕ) (m : Mover) → CalmRec m (check_move fuel m)
unfolding check_move
check_move-CalmRec zero m ps i is_king d is_taking size guard small away = tt
check_move-CalmRec (suc fuel) m ps i is_king d is_taking size guard small away =
    check_body-Calm (check_move fuel m) m (check_move-CalmRec fuel m) ps size guard i is_king d
      is_taking small away

-- While an active piece that the mover cannot take stands on square 28, `check_move` does not panic
-- from any other square of a board of 32 squares.
pub check_move-Calm :
    (fuel : ℕ) (m : Mover) (ps : Pieces) (i : ℕ) (is_king : Bool) (d : Direction) (is_taking : Bool)
    → length ps ≡ 32
    → Guarded m ps
    → i < 32
    → i ≢ 28
    → check_move fuel m ps i is_king d is_taking ≢ panic
check_move-Calm fuel m ps i is_king d is_taking size guard small away e =
    rw e at (check_move-CalmRec fuel m ps i is_king d is_taking size guard small away)
