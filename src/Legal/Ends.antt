-- ===== src/Legal/Ends.antt =====
-- `check_move` ends: the fuel that the callers give is enough on every board of 32 squares.
use psychic_fiesta.Prelude.{ℕ, zero, suc, ◌+◌, ◌*◌, ◌≤◌, ◌<◌, Bool, true, false, not, ◌||◌}
use psychic_fiesta.Prelude.{Option, none, some, List, [], ◌∷◌, ◌≡◌, refl, inl, inr, arith, ◌∙◌}
use psychic_fiesta.Prelude.{length, length-set, get_elem?, set, get_elem?-lt, if◌then◌else◌}
use psychic_fiesta.Prelude.{Option-cases, lt→ltb}
use psychic_fiesta.Prelude.Int.{pos, pos_part, ltb_ℤ}
use psychic_fiesta.Prelude.Outcome.{Outcome, done, panic, undefined, stuck, ◌>>=◌}
use psychic_fiesta.Game.{color_eq, PieceData, const_default, Move, Direction, up_left, up_right}
use psychic_fiesta.Game.{down_left, down_right, values}
use psychic_fiesta.Legal.{Pieces, Found, Mover, Rec, push_captured, keep_further, further_moves}
use psychic_fiesta.Legal.{append_moves, take_piece, step_to, at_tile, check_body, check_move}
use psychic_fiesta.Legal.{at_edge, backwards, next_index, over_enemy}
use psychic_fiesta.Legal.{is_promoting}
use psychic_fiesta.Legal.Geometry.{rows_left, next_row}

-- The model of the call did not run out of fuel.
abbrev pub Ends {ℓ} : {A : Type ℓ} → Outcome A → Type 0
Ends stuck = ⊥
Ends _ = Unit

pub Ends-bind {ℓ κ} :
    {A : Type ℓ} {B : Type κ} (r : Outcome A) (f : A → Outcome B)
    → Ends r
    → ((a : A) → r ≡ done a → Ends (f a))
    → Ends (r >>= f)
Ends-bind (done a) f h k = k a refl
Ends-bind panic f h k = tt
Ends-bind undefined f h k = tt
Ends-bind stuck f h k = absurd h

pub Ends-if {ℓ} :
    {A : Type ℓ} (b : Bool) (x y : Outcome A)
    → (b ≡ true → Ends x)
    → (b ≡ false → Ends y)
    → Ends (if b then x else y)
Ends-if true x y h k = h refl
Ends-if false x y h k = k refl

abbrev pub active_count : Pieces → ℕ
active_count [] = 0
active_count (p ∷ ps) = (if p.is_active then 1 else 0) + active_count ps

pub active_count-le-length : (ps : Pieces) → active_count ps ≤ length ps
active_count-le-length [] = omega arith
active_count-le-length (p ∷ ps) = ground (arith, active_count-le-length ps)

pub active_count-set :
    (ps : Pieces) (i : ℕ) (t : PieceData)
    → get_elem? ps i ≡ some t
    → t.is_active ≡ true
    → suc (active_count (set ps i const_default)) ≡ active_count ps
active_count-set [] i t e a = cc
active_count-set (p ∷ ps) zero t e a = ground arith
active_count-set (p ∷ ps) (suc i) t e a = omega (arith, active_count-set ps i t e a)

push_captured-Ends :
    (i : ℕ) (promoting : Bool) (moves : List Move) → Ends (push_captured i promoting moves)
unfolding push_captured
push_captured-Ends i promoting [] = tt
push_captured-Ends i promoting (mov ∷ moves) = elim (Option-cases mov.captured) [
  | inl e ↦ rw e tt
  | inr (xs, e) ↦ rw e (
      Ends-bind (push_captured i promoting moves) _ (push_captured-Ends i promoting moves)
        (λ _ _. tt))
]

keep_further-Ends :
    (i : ℕ) (promoting : Bool) (acc : Option (List Move)) (found : Found)
    → Ends (keep_further i promoting acc found)
unfolding keep_further
keep_further-Ends i promoting acc none = tt
keep_further-Ends i promoting acc (some (moves, false)) = tt
keep_further-Ends i promoting acc (some (moves, true)) =
    Ends-bind (push_captured i promoting moves) (λ pushed. done (append_moves acc pushed))
      (push_captured-Ends i promoting moves) (λ _ _. tt)

further_moves-Ends :
    (call : Direction → Outcome Found) (i : ℕ) (promoting : Bool)
    → ((d : Direction) → Ends (call d))
    → (ds : List Direction) (acc : Option (List Move))
    → Ends (further_moves call i promoting ds acc)
unfolding further_moves
further_moves-Ends call i promoting h [] acc = tt
further_moves-Ends call i promoting h (d ∷ ds) acc = Ends-bind (call d) _ (h d) (λ found _.
    Ends-bind (keep_further i promoting acc found) _ (keep_further-Ends i promoting acc found)
      (λ acc' _. further_moves-Ends call i promoting h ds acc'))

-- The work left: eight for each active piece, and the rows ahead.
abbrev pub measure : Pieces → ℕ → Direction → ℕ
measure ps i d = 8 * active_count ps + rows_left d i

abbrev TakesActive : Pieces → ℕ → Bool → Type 0
TakesActive ps i is_taking =
    is_taking ≡ true → (t : PieceData) × (get_elem? ps i ≡ some t) × (t.is_active ≡ true)

-- A call with less to do than `fuel` ends.
abbrev EndsRec : ℕ → Rec → Type 0
EndsRec fuel call =
    (ps : Pieces) (i : ℕ) (is_king : Bool) (d : Direction) (is_taking : Bool)
    → length ps ≡ 32
    → i < 32
    → TakesActive ps i is_taking
    → measure ps i d < fuel
    → Ends (call ps i is_king d is_taking)

pub rows_left-le : (d : Direction) (i : ℕ) → i < 32 → rows_left d i ≤ 7
rows_left-le up_left i h = omega arith
rows_left-le up_right i h = omega arith
rows_left-le down_left i h = omega arith
rows_left-le down_right i h = omega arith

pub or_false_left : (a b : Bool) → a || b ≡ false → a ≡ false
or_false_left a b h = ground arith

module _ (fuel : ℕ) (call : Rec) (ends : EndsRec fuel call) (m : Mover) (ps : Pieces)
    (size : length ps ≡ 32) (i : ℕ) (is_king : Bool) (d : Direction) (is_taking : Bool)
    (small : i < 32) (takes : TakesActive ps i is_taking) (enough : measure ps i d < suc fuel) where
  take_piece-Ends :
      (next : ℕ) → next < 32 → is_taking ≡ true → Ends (take_piece call m ps i is_king next)
  unfolding take_piece
  take_piece-Ends next h t =
      let (p, e, a) = takes t in
      let fewer = active_count-set ps i p e a in
      let promoting = is_promoting m next in
      let ps' : Pieces = set ps i const_default in
      let beyond = λ (d' : Direction). call ps' next (is_king || promoting) d' false in
      let size' : length ps' ≡ 32 = length-set ps i const_default ∙ size in
      rw (lt→ltb i (length ps) (get_elem?-lt ps i e)) (
        Ends-bind (further_moves beyond i promoting values none) _
          (further_moves-Ends beyond i promoting
            (λ d'.
              ends ps' next (is_king || promoting) d' false size' h (λ q. cc)
                (omega (arith, fewer, rows_left-le d' next h)))
            values none)
          (λ _ _. tt))

  module _ (next : ℕ) (inside : next < 32) (nearer : suc (rows_left d next) ≤ rows_left d i) where
    step_to-Ends : Ends (step_to call m ps is_king d next)
    unfolding step_to
    step_to-Ends =
        Ends-if is_king _ _
          (λ _.
            Ends-bind (call ps next is_king d false) _
              (ends ps next is_king d false size inside (λ q. cc) (omega arith))
              (λ found _. elim (Option-cases found) [
                | inl e ↦ rw e tt
                | inr ((moves, capturing), e) ↦ rw e tt
              ]))
          (λ _. tt)

    at_tile-Ends :
        (tile : PieceData)
        → get_elem? ps next ≡ some tile
        → Ends (at_tile call m ps i is_king d is_taking next tile)
    unfolding at_tile
    at_tile-Ends tile e =
        Ends-if tile.is_active _ _
          (λ active.
            Ends-if (not (color_eq tile.color m.enemy_color) || is_taking) _ _ (λ _. tt)
              (λ _.
                Ends-bind (call ps next is_king d true) (λ found. done (over_enemy found))
                  (ends ps next is_king d true size inside (λ _. (tile, e, active)) (omega arith))
                  (λ _ _. tt)))
          (λ _. Ends-if is_taking _ _ (take_piece-Ends next inside) (λ _. step_to-Ends))

  check_body-Ends : Ends (check_body call m ps i is_king d is_taking)
  unfolding check_body
  check_body-Ends =
      let next = next_index d i in
      Ends-if (at_edge d i || backwards m is_king d) _ _ (λ _. tt)
        (λ free.
          Ends-if (ltb_ℤ next (pos 0) || ltb_ℤ (pos (length ps)) next) _ _ (λ _. tt)
            (λ within. elim (Option-cases (get_elem? ps (pos_part next))) [
              | inl e ↦ rw e tt
              | inr (tile, e) ↦
                  let inside : pos_part next < 32 =
                    omega (arith, get_elem?-lt ps (pos_part next) e) in
                  rw e (
                    at_tile-Ends (pos_part next) inside
                      (next_row d i small (or_false_left _ _ free) (or_false_left _ _ within)
                        inside)
                      tile e)
            ]))

-- On a board of 32 squares, from a square of the board, on which an active piece stands if it is being
-- taken, `check_move` ends: with fuel above eight for each active piece and one for each row ahead,
-- the model does not run out of it.
pub check_move-Ends :
    (fuel : ℕ) (m : Mover) (ps : Pieces) (i : ℕ) (is_king : Bool) (d : Direction) (is_taking : Bool)
    → length ps ≡ 32
    → i < 32
    → TakesActive ps i is_taking
    → measure ps i d < fuel
    → Ends (check_move fuel m ps i is_king d is_taking)
unfolding check_move
check_move-Ends zero m ps i is_king d is_taking size small takes enough = absurd (omega arith)
check_move-Ends (suc fuel) m ps i is_king d is_taking size small takes enough =
    check_body-Ends fuel (check_move fuel m) (check_move-Ends fuel m) m ps size i is_king d
      is_taking small takes enough
