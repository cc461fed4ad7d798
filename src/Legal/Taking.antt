-- ===== src/Legal/Taking.antt =====
-- Taking a piece: each capture that takes it is found, with each way to go on from there.
use psychic_fiesta.Prelude.{ℕ, ◌<◌, Bool, true, false, ◌||◌, Option, none, some}
use psychic_fiesta.Prelude.{List, [], ◌∷◌, ◌≡◌, ◌⊎◌, ◌↔◌, inl, inr, ◌∙◌}
use psychic_fiesta.Prelude.{set, length, length-set, lt→ltb}
use psychic_fiesta.Prelude.Outcome.{done}
use psychic_fiesta.Prelude.Holds.{Holds}
use psychic_fiesta.Game.{const_default, Move, Direction, values}
use psychic_fiesta.Game.{up_left, up_right, down_left, down_right}
use psychic_fiesta.Legal.{Pieces, Found, Mover, Rec, further_moves, or_single}
use psychic_fiesta.Legal.{take_piece}
use psychic_fiesta.Legal.Spec.{IsEmpty}
use psychic_fiesta.Legal.Tours.{
  Ahead, CanHop, Tour, Slide, Beyond, jump_of, is_crowned, Tour-CanHop,
}
use psychic_fiesta.Legal.Tours.{is_promoting-is_crowned}
use psychic_fiesta.Legal.Listing.{Exactly, Lists-map, Lists-one, Gathered, Gathered-map, Any}
use psychic_fiesta.Legal.Listing.{↔-trans, ↔-sym, ⊎-right}
use psychic_fiesta.Legal.Further.{Holds-then, Extended, further_moves-Gathered}
use psychic_fiesta.Legal.Ahead.{CanLand, Lands, at_next}

-- What `check_move` is to find at `i` in the direction `d`: where a piece is being taken there, the
-- captures that take it and what follows them, and else the moves of a piece on `i`.
abbrev pub ExactAt : Mover → Pieces → ℕ → Bool → Direction → Bool → Found → Type 0
ExactAt m ps i king d true = Exactly (CanLand m ps king d i) (Lands m ps king d i) (λ _. ⊥)
ExactAt m ps i king d false =
    Exactly (CanHop m ps king d i) (Tour m ps king d i) (λ mov. Slide m ps king d mov i)

abbrev pub ExactRec : Mover → Rec → Type 0
ExactRec m call =
    (ps : Pieces) (i : ℕ) (king : Bool) (d : Direction) (is_taking : Bool)
    → length ps ≡ 32
    → i < 32
    → Holds (ExactAt m ps i king d is_taking) (call ps i king d is_taking)

pub Any-values : (P : Direction → Type 0) → Any P values ↔ ((d : Direction) × P d)
Any-values P = (some_direction, listed)
  where
    some_direction : Any P values → (d : Direction) × P d
    some_direction (inl p) = (up_right, p)
    some_direction (inr (inl p)) = (up_left, p)
    some_direction (inr (inr (inl p))) = (down_left, p)
    some_direction (inr (inr (inr (inl p)))) = (down_right, p)
    some_direction (inr (inr (inr (inr p)))) = absurd p

    listed : ((d : Direction) × P d) → Any P values
    listed (up_right, p) = inl p
    listed (up_left, p) = inr (inl p)
    listed (down_left, p) = inr (inr (inl p))
    listed (down_right, p) = inr (inr (inr (inl p)))

module _ (call : Rec) (m : Mover) (exact : ExactRec m call) (ps : Pieces) (size : length ps ≡ 32)
    (king : Bool) (d : Direction) (i next : ℕ) (small : i < 32) (here : Ahead m king d i next) where
  module _ (empty : IsEmpty ps next) where
    abbrev after : Pieces
    after = set ps i const_default

    abbrev king' : Bool
    king' = king || is_crowned m next

    abbrev HopsOn : Direction → Type 0
    HopsOn d' = CanHop m after king' d' next

    -- A way to go on from `next`, with the piece on `i` appended.
    abbrev ToursOn : Move → Direction → Type 0
    ToursOn mov d' = Extended i (is_crowned m next) (Tour m after king' d' next) mov

    abbrev MayHop : Type 0
    MayHop = (d' : Direction) × HopsOn d'

    abbrev Onward : Move → Type 0
    Onward mov = (d' : Direction) × ToursOn mov d'

    Onward-MayHop : (mov : Move) → Onward mov → MayHop
    Onward-MayHop mov (d', (mov', t, _)) = (d', Tour-CanHop t)

    Beyond-stays : ¬ MayHop → (mov : Move) → (mov ≡ jump_of m i next) ↔ Beyond m ps king i next mov
    Beyond-stays stays mov = (
      λ e. inl (λ d' h. stays (d', h), e),
      elim [ inl (_, e) ↦ e | inr on ↦ absurd (stays (Onward-MayHop mov on)) ],
    )

    Beyond-Onward : MayHop → (mov : Move) → Onward mov ↔ Beyond m ps king i next mov
    Beyond-Onward (d', h) mov =
        (λ on. inr on, elim [ inl (stays, _) ↦ absurd (stays d' h) | inr on ↦ on ])

    landing : (mov : Move) → Beyond m ps king i next mov ↔ Lands m ps king d i mov
    landing mov =
        ↔-trans (λ b. (empty, b), λ (_, b). b)
          (at_next m ps king d i next here (λ n. IsEmpty ps n × Beyond m ps king i n mov))

    or_single-Exactly :
        (further : Option (List Move))
        → Gathered MayHop Onward further
        → ExactAt m ps i king d true (or_single m i next further)
    or_single-Exactly none stays = rw (is_promoting-is_crowned m next) (
      (next, here, empty),
      Lists-map (jump_of m i next ∷ []) (λ mov. ↔-trans (Beyond-stays stays mov) (landing mov))
          (Lists-one (jump_of m i next)),
    )
    or_single-Exactly (some moves) (hops, listed) = (
      (next, here, empty),
      Lists-map moves (λ mov. ↔-trans (Beyond-Onward hops mov) (landing mov)) listed,
    )

    gathered :
        (further : Option (List Move))
        → Gathered (⊥ ⊎ Any HopsOn values) (λ mov. ⊥ ⊎ Any (ToursOn mov) values) further
        → Gathered MayHop Onward further
    gathered =
        Gathered-map (↔-trans (↔-sym (⊎-right (λ a. a))) (Any-values HopsOn))
          (λ mov. ↔-trans (↔-sym (⊎-right (λ a. a))) (Any-values (ToursOn mov)))

    pub take_piece-Exact : Holds (ExactAt m ps i king d true) (take_piece call m ps i king next)
    unfolding take_piece
    take_piece-Exact =
        rw (lt→ltb i (length ps) (rw size small), is_promoting-is_crowned m next)
          (Holds-then _ _
            (further_moves (λ d'. call after next king' d' false) i (is_crowned m next) values none)
            (λ further. done (or_single m i next further))
            (further_moves-Gathered i (is_crowned m next) (λ d'. call after next king' d' false)
              (λ d'. CanHop m after king' d' next) (λ d'. Tour m after king' d' next)
              (λ d' mov. Slide m after king' d' mov next) (λ d' mov t. Tour-CanHop t)
              (λ d'. exact after next king' d' false (length-set ps i const_default ∙ size) here.2)
              values {C = ⊥} {T = λ _. ⊥} (λ mov t. t) none (λ c. c))
            (λ further g. or_single-Exactly further (gathered further g)))
