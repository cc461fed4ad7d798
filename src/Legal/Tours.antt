-- ===== src/Legal/Tours.antt =====
-- The moves of a piece as the rules of the board describe them, apart from how `check_move` finds
-- them: steps, jumps, and tours of jumps.
use psychic_fiesta.Prelude.{ℕ, ◌<◌, Bool, true, false, not, ◌&&◌, ◌||◌, some, List, [], ◌∷◌, ◌++◌}
use psychic_fiesta.Prelude.{if◌then◌else◌, leb, ◌==◌, Bool-cases}
use psychic_fiesta.Prelude.{none, ◌≡◌, ◌⊎◌, ◌↔◌, inl, inr, refl, arith, set}
use psychic_fiesta.Game.{const_default, Move, Direction}
use psychic_fiesta.Game.{is_down, is_up, up_left, up_right, down_left, down_right}
use psychic_fiesta.Legal.{Pieces, Mover, is_local_player, is_promoting, backwards}
use psychic_fiesta.Legal.Spec.{IsEmpty, IsEnemy}
use psychic_fiesta.Legal.Geometry.{row, Diagonal}

-- The local player's men go up, the opponent's go down.
abbrev pub Forward : Bool → Direction → Type 0
Forward true up_left = Unit
Forward true up_right = Unit
Forward false down_left = Unit
Forward false down_right = Unit
Forward _ _ = ⊥

abbrev pub Goes : Mover → Bool → Direction → Type 0
Goes m king d = (king ≡ true) ⊎ Forward (is_local_player m) d

-- `n` is the next square of the board in the direction `d`, and the piece may go there.
abbrev pub Ahead : Mover → Bool → Direction → ℕ → ℕ → Type 0
Ahead m king d i n = Goes m king d × Diagonal d i n × (n < 32)

-- From `i` the piece jumps over the enemy on `e` to the empty square `n` behind it; a king may first
-- glide over empty squares.
pub data Hop (m : Mover) (ps : Pieces) (king : Bool) (d : Direction) (e n : ℕ) : ℕ → Type 0 where
  jump :
      {i : ℕ}
      → Ahead m king d i e
      → IsEnemy m ps e
      → Ahead m king d e n
      → IsEmpty ps n
      → Hop m ps king d e n i
  glide :
      {i : ℕ} (j : ℕ)
      → king ≡ true
      → Ahead m king d i j
      → IsEmpty ps j
      → Hop m ps king d e n j
      → Hop m ps king d e n i

abbrev pub CanHop : Mover → Pieces → Bool → Direction → ℕ → Type 0
CanHop m ps king d i = (e : ℕ) × (n : ℕ) × Hop m ps king d e n i

-- A piece of the local player that arrives in the first row becomes a king, and one of the opponent in
-- the last row, but not on its square 28.
abbrev pub is_crowned : Mover → ℕ → Bool
is_crowned m n = if is_local_player m then row n == 0 else leb 7 (row n) && not (n == 28)

pub is_promoting-is_crowned : (m : Mover) (n : ℕ) → is_promoting m n ≡ is_crowned m n
is_promoting-is_crowned m n = elim (Bool-cases (is_local_player m)) [
  | inl up ↦ rw up (ground arith)
  | inr down ↦ rw down (ground arith)
]

abbrev pub step_of : Mover → ℕ → Move
step_of m n = record { index = m.start; end = n; captured = none; promoted = is_crowned m n }

abbrev pub jump_of : Mover → ℕ → ℕ → Move
jump_of m e n = record {
  index = m.start;
  end = n;
  captured = some (e ∷ []);
  promoted = is_crowned m n;
}

-- `mov` is `mov'` with the piece on `e` taken before it, which the code writes behind the others.
abbrev pub Extends : ℕ → Bool → Move → Move → Type 0
Extends e promoting mov' mov =
    (xs : List ℕ) × (mov'.captured ≡ some xs)
    × (mov
        ≡ record mov' { captured = some (xs ++ (e ∷ [])); promoted = mov'.promoted || promoting })

-- After a jump over `e` to `n` the piece goes on with what it has become, on the board without the
-- piece taken: it ends there if it can hop in no direction, and else it must hop on. Where it
-- set out the board still shows it.
pub data Tour (m : Mover) : Pieces → Bool → Direction → ℕ → Move → Type 0 where
  ends :
      {ps : Pieces} {king : Bool} {d : Direction} {i : ℕ} {mov : Move} (e n : ℕ)
      → Hop m ps king d e n i
      → ((d' : Direction) → ¬ CanHop m (set ps e const_default) (king || is_crowned m n) d' n)
      → mov ≡ jump_of m e n
      → Tour m ps king d i mov
  goes_on :
      {ps : Pieces} {king : Bool} {d : Direction} {i : ℕ} {mov : Move} (e n : ℕ) (d' : Direction)
      (mov' : Move)
      → Hop m ps king d e n i
      → Tour m (set ps e const_default) (king || is_crowned m n) d' n mov'
      → Extends e (is_crowned m n) mov' mov
      → Tour m ps king d i mov

-- A move to the empty square ahead, or for a king to one behind it.
pub data Slide (m : Mover) (ps : Pieces) (king : Bool) (d : Direction) (mov : Move)
    : ℕ → Type 0 where
  step :
      {i : ℕ} (n : ℕ)
      → Ahead m king d i n
      → IsEmpty ps n
      → mov ≡ step_of m n
      → Slide m ps king d mov i
  slide :
      {i : ℕ} (j : ℕ)
      → king ≡ true
      → Ahead m king d i j
      → IsEmpty ps j
      → Slide m ps king d mov j
      → Slide m ps king d mov i

-- What the piece does once it has jumped over `e` to `n`.
abbrev pub Beyond : Mover → Pieces → Bool → ℕ → ℕ → Move → Type 0
Beyond m ps king e n mov =
    (((d' : Direction) → ¬ CanHop m (set ps e const_default) (king || is_crowned m n) d' n)
      × (mov ≡ jump_of m e n))
    ⊎ ((d' : Direction) × ((mov' : Move) × Tour m (set ps e const_default) (king || is_crowned m n)
            d' n mov'
          × Extends e (is_crowned m n) mov' mov))

pub Tour-split :
    {m : Mover} {ps : Pieces} {king : Bool} {d : Direction} {i : ℕ} {mov : Move}
    → Tour m ps king d i mov
      ↔ ((e : ℕ) × (n : ℕ) × Hop m ps king d e n i × Beyond m ps king e n mov)
Tour-split {m} {ps} {king} {d} {i} {mov} = (split, join)
  where
    split :
        Tour m ps king d i mov
        → (e : ℕ) × (n : ℕ) × Hop m ps king d e n i × Beyond m ps king e n mov
    split (ends e n h f q) = (e, n, h, inl (f, q))
    split (goes_on e n d' mov' h t q) = (e, n, h, inr (d', (mov', t, q)))

    join :
        ((e : ℕ) × (n : ℕ) × Hop m ps king d e n i × Beyond m ps king e n mov)
        → Tour m ps king d i mov
    join (e, n, h, inl (f, q)) = ends e n h f q
    join (e, n, h, inr (d', (mov', t, q))) = goes_on e n d' mov' h t q

pub Tour-CanHop :
    {m : Mover} {ps : Pieces} {king : Bool} {d : Direction} {i : ℕ} {mov : Move}
    → Tour m ps king d i mov
    → CanHop m ps king d i
Tour-CanHop (ends e n h f q) = (e, n, h)
Tour-CanHop (goes_on e n d' mov' h t q) = (e, n, h)

pub Tour-captured :
    {m : Mover} {ps : Pieces} {king : Bool} {d : Direction} {i : ℕ} {mov : Move}
    → Tour m ps king d i mov
    → (xs : List ℕ) × (mov.captured ≡ some xs)
Tour-captured (ends e n h f q) = (e ∷ [], rw q refl)
Tour-captured (goes_on e n d' mov' h t (xs, c, q)) = (xs ++ (e ∷ []), rw q refl)

pub Slide-captured :
    {m : Mover} {ps : Pieces} {king : Bool} {d : Direction} {mov : Move} {i : ℕ}
    → Slide m ps king d mov i
    → mov.captured ≡ none
Slide-captured (step n a e q) = rw q refl
Slide-captured (slide j k a e s) = Slide-captured s

-- A square has one neighbour in a direction.
pub Diagonal-unique : (d : Direction) (i n n' : ℕ) → Diagonal d i n → Diagonal d i n' → n ≡ n'
Diagonal-unique up_left i n n' h g = ground arith
Diagonal-unique up_right i n n' h g = ground arith
Diagonal-unique down_left i n n' h g = ground arith
Diagonal-unique down_right i n n' h g = ground arith

pub backwards-Goes :
    (m : Mover) (king : Bool) (d : Direction) → (backwards m king d ≡ false) ↔ Goes m king d
backwards-Goes m true d = (λ e. inl refl, λ g. refl)
backwards-Goes m false d = (may_go (is_local_player m) d, go_back (is_local_player m) d)
  where
    may_go :
        (local : Bool) (d : Direction)
        → (is_down d && local) || (is_up d && not local) ≡ false
        → (false ≡ true) ⊎ Forward local d
    may_go true up_left e = inr tt
    may_go true up_right e = inr tt
    may_go true down_left e = cc
    may_go true down_right e = cc
    may_go false up_left e = cc
    may_go false up_right e = cc
    may_go false down_left e = inr tt
    may_go false down_right e = inr tt

    go_back :
        (local : Bool) (d : Direction)
        → (false ≡ true) ⊎ Forward local d
        → (is_down d && local) || (is_up d && not local) ≡ false
    go_back local d (inl e) = cc
    go_back true up_left (inr g) = refl
    go_back true up_right (inr g) = refl
    go_back true down_left (inr g) = absurd g
    go_back true down_right (inr g) = absurd g
    go_back false up_left (inr g) = absurd g
    go_back false up_right (inr g) = absurd g
    go_back false down_left (inr g) = refl
    go_back false down_right (inr g) = refl
