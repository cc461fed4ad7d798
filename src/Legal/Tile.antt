-- ===== src/Legal/Tile.antt =====
-- One step of `check_move` into a square of the board: what it finds there, for each tile.
use psychic_fiesta.Prelude.{ℕ, ◌<◌, Bool, true, false, not, ◌||◌, none, some}
use psychic_fiesta.Prelude.{List, [], ◌∷◌, ◌≡◌, ◌⊎◌, ◌↔◌, inl, inr, arith}
use psychic_fiesta.Prelude.{get_elem?, length}
use psychic_fiesta.Prelude.Outcome.{done}
use psychic_fiesta.Legal.Sound.{jumped}
use psychic_fiesta.Prelude.Holds.{Holds, Holds-if}
use psychic_fiesta.Game.{PieceColor, white, black, color_eq, PieceData, Move, Direction}
use psychic_fiesta.Legal.{Pieces, Found, Mover, Rec}
use psychic_fiesta.Legal.{step_to, at_tile, with_step, over_enemy}
use psychic_fiesta.Legal.Spec.{IsEmpty, IsEnemy}
use psychic_fiesta.Legal.Taking.{ExactAt, ExactRec, take_piece-Exact}
use psychic_fiesta.Legal.Tours.{Ahead, CanHop, Tour, Slide, step_of, is_promoting-is_crowned}
use psychic_fiesta.Legal.Tours.{Tour-captured}
use psychic_fiesta.Legal.Listing.{Exactly-map, Lists-map, Lists-one}
use psychic_fiesta.Legal.Listing.{↔-trans, ↔-sym, ⊎-right, Lists-append}
use psychic_fiesta.Legal.Listing.{only_captures-Listed}
use psychic_fiesta.Legal.Further.{Holds-then}
use psychic_fiesta.Legal.Ahead.{Lands, at_next, CanHop-at, Tour-at, Slide-at}

taken_once : (b : Bool) → b || true ≡ false → ⊥
taken_once b h = ground arith

friend : (a b : PieceColor) → not (color_eq a b) || false ≡ true → ¬ (a ≡ b)
friend white white h e = cc
friend black black h e = cc
friend white black h e = cc
friend black white h e = cc

module _ (call : Rec) (m : Mover) (exact : ExactRec m call) (ps : Pieces) (size : length ps ≡ 32)
    (king : Bool) (d : Direction) (i next : ℕ) (small : i < 32) (here : Ahead m king d i next) where
  module _ (tile : PieceData) (at : get_elem? ps next ≡ some tile) where
    enemy-active : IsEnemy m ps next → tile.is_active ≡ true
    enemy-active (t, e, a, c) = let same : t ≡ tile = cc in rw same at a

    enemy-color : IsEnemy m ps next → tile.color ≡ m.enemy_color
    enemy-color (t, e, a, c) = let same : t ≡ tile = cc in rw same at c

    empty-inactive : IsEmpty ps next → tile.is_active ≡ false
    empty-inactive (t, e, a) = let same : t ≡ tile = cc in rw same at a

    full : tile.is_active ≡ true → ¬ IsEmpty ps next
    full active em = cc (active, empty-inactive em)

    module _ (is_empty : ¬ IsEmpty ps next) where
      nothing-behind : ExactAt m ps i king d true none
      nothing-behind = (
        λ (n, a, em). is_empty ((at_next m ps king d i next here (IsEmpty ps)).1 (n, a, em)),
        λ mov q. q,
      )

      Slide-blocked : (mov : Move) → ¬ Slide m ps king d mov i
      Slide-blocked mov s = is_empty ((Slide-at m ps king d i next here mov).0 s).0

      blocked : ¬ IsEnemy m ps next → ExactAt m ps i king d false none
      blocked friend = (
        λ h. elim ((CanHop-at m ps king d i next here).0 h) [
          | inl (en, _) ↦ friend en
          | inr (_, em, _) ↦ is_empty em
        ],
        Slide-blocked,
      )

      -- Over an enemy the piece only jumps.
      over_enemy-Exact :
          IsEnemy m ps next
          → (found : Found) → ExactAt m ps next king d true found
          → ExactAt m ps i king d false (over_enemy found)
      over_enemy-Exact enemy found h =
          Exactly-map
            (↔-trans
              (λ c. inl (enemy, c), elim [ inl (_, c) ↦ c | inr (_, em, _) ↦ absurd (is_empty em) ])
              (↔-sym (CanHop-at m ps king d i next here)))
            (λ mov.
              ↔-trans
                (
                  λ c. inl (enemy, c),
                  elim [ inl (_, c) ↦ c | inr (_, em, _) ↦ absurd (is_empty em) ],
                )
                (↔-sym (Tour-at m ps king d i next here mov)))
            (λ mov. (λ q. absurd q, λ s. absurd (Slide-blocked mov s))) (over_enemy found)
            (kept found h)
        where
          captured :
              (mov : Move) → Lands m ps king d next mov → (xs : List ℕ) × (mov.captured ≡ some xs)
          captured mov l = Tour-captured ((Tour-at m ps king d i next here mov).1 (inl (enemy, l)))

          kept :
              (found : Found)
              → ExactAt m ps next king d true found
              → ExactAt m ps next king d true (over_enemy found)
          kept none h = h
          kept (some (moves, false)) h = h
          kept (some (moves, true)) h =
              rw (only_captures-Listed moves (λ mov l. captured mov ((h.1 mov).0 l))) h

    module _ (empty : IsEmpty ps next) where
      friendly : ¬ IsEnemy m ps next
      friendly en = cc (enemy-active en, empty-inactive empty)

      man_steps : king ≡ false → ExactAt m ps i king d false (with_step m next [] false)
      man_steps low = rw (is_promoting-is_crowned m next) (
        λ h. elim ((CanHop-at m ps king d i next here).0 h) [
          | inl (en, _) ↦ friendly en
          | inr (k, _, _) ↦ cc
        ],
        Lists-map (step_of m next ∷ [])
            (λ mov.
              ↔-trans (λ e. (empty, inl e), λ (_, r). elim r [ inl e ↦ e | inr (k, _) ↦ cc ])
                (↔-sym (Slide-at m ps king d i next here mov)))
            (Lists-one (step_of m next)),
      )

      module _ (high : king ≡ true) where
        hops_on : CanHop m ps king d next ↔ CanHop m ps king d i
        hops_on =
            ↔-trans
              (
                λ h. inr (high, empty, h),
                elim [ inl (en, _) ↦ absurd (friendly en) | inr (_, _, h) ↦ h ],
              )
              (↔-sym (CanHop-at m ps king d i next here))

        tours_on : (mov : Move) → Tour m ps king d next mov ↔ Tour m ps king d i mov
        tours_on mov =
            ↔-trans
              (
                λ h. inr (high, empty, h),
                elim [ inl (en, _) ↦ absurd (friendly en) | inr (_, _, h) ↦ h ],
              )
              (↔-sym (Tour-at m ps king d i next here mov))

        slides_on :
            (mov : Move)
            → (Slide m ps king d mov next ⊎ (mov ≡ step_of m next)) ↔ Slide m ps king d mov i
        slides_on mov =
            ↔-trans
              (
                λ r. (empty, elim r [ inl s ↦ inr (high, s) | inr e ↦ inl e ]),
                λ (_, r). elim r [ inl e ↦ inr e | inr (_, s) ↦ inl s ],
              )
              (↔-sym (Slide-at m ps king d i next here mov))

        king_steps :
            (found : Found)
            → ExactAt m ps next king d false found
            → Holds (ExactAt m ps i king d false) (elim found [
              | none ↦ done (with_step m next [] false)
              | some (moves, capturing) ↦ done (with_step m next moves capturing)
            ])
        king_steps none h = rw (is_promoting-is_crowned m next) (
          λ c. h.0 (hops_on.1 c),
          Lists-map (step_of m next ∷ []) (λ mov. ↔-trans (⊎-right (h.1 mov)) (slides_on mov))
              (Lists-one (step_of m next)),
        )
        king_steps (some (moves, true)) h = (hops_on.0 h.0, Lists-map moves tours_on h.1)
        king_steps (some (moves, false)) h = rw (is_promoting-is_crowned m next) (
          λ c. h.0 (hops_on.1 c),
          Lists-map _ slides_on (Lists-append moves _ h.1 (Lists-one (step_of m next))),
        )

      step_to-Exact : Holds (ExactAt m ps i king d false) (step_to call m ps king d next)
      unfolding step_to
      step_to-Exact =
          Holds-if _ king _ _
            (λ high.
              Holds-then _ _ (call ps next king d false) _ (exact ps next king d false size here.2)
                (king_steps high))
            man_steps

  pub at_tile-Exact :
      (is_taking : Bool) (tile : PieceData)
      → get_elem? ps next ≡ some tile
      → Holds (ExactAt m ps i king d is_taking) (at_tile call m ps i king d is_taking next tile)
  unfolding at_tile
  at_tile-Exact true tile at =
      Holds-if _ tile.is_active _ _
        (λ active.
          Holds-if _ (not (color_eq tile.color m.enemy_color) || true) _ _
            (λ _. nothing-behind tile at (full tile at active))
            (λ free. absurd (taken_once (not (color_eq tile.color m.enemy_color)) free)))
        (λ inactive.
          take_piece-Exact call m exact ps size king d i next small here (tile, at, inactive))
  at_tile-Exact false tile at =
      Holds-if _ tile.is_active _ _
        (λ active.
          Holds-if _ (not (color_eq tile.color m.enemy_color) || false) _ _
            (λ stop.
              blocked tile at (full tile at active)
                (λ en. friend tile.color m.enemy_color stop (enemy-color tile at en)))
            (λ free.
              Holds-then _ _ (call ps next king d true) (λ found. done (over_enemy found))
                (exact ps next king d true size here.2)
                (over_enemy-Exact tile at (full tile at active)
                  (tile, at, active, jumped tile.color m.enemy_color false free))))
        (λ inactive. step_to-Exact tile at (tile, at, inactive))
