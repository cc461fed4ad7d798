-- ===== src/Legal/Ahead.antt =====
-- What a piece can do in a direction, by the square ahead of it: jump over an enemy there, or glide
-- on from there if it is empty.
use psychic_fiesta.Prelude.{ℕ, Bool, true}
use psychic_fiesta.Prelude.{◌≡◌, ◌⊎◌, ◌↔◌, inl, inr}
use mathlib.Core.Path.{subst}
use psychic_fiesta.Game.{Move, Direction}
use psychic_fiesta.Legal.{Pieces, Mover}
use psychic_fiesta.Legal.Spec.{IsEmpty, IsEnemy}
use psychic_fiesta.Legal.Tours.{Ahead, Hop, jump, glide, CanHop, Tour, Beyond, Tour-split}
use psychic_fiesta.Legal.Tours.{Slide, step, slide, step_of, Diagonal-unique}
use psychic_fiesta.Legal.Listing.{↔-trans, ⊎-map}

module _ (m : Mover) (ps : Pieces) (king : Bool) (d : Direction) where
  -- Behind the piece on `e` there is an empty square to land on.
  abbrev pub CanLand : ℕ → Type 0
  CanLand e = (n : ℕ) × Ahead m king d e n × IsEmpty ps n

  -- A capture of the piece on `e` and what follows it.
  abbrev pub Lands : ℕ → Move → Type 0
  Lands e mov = (n : ℕ) × Ahead m king d e n × (IsEmpty ps n × Beyond m ps king e n mov)

  -- Nothing is ahead: no capture and no step.
  pub CanHop-Ahead : (i : ℕ) → CanHop m ps king d i → (n : ℕ) × Ahead m king d i n
  CanHop-Ahead i (e, n, jump a en b em) = (e, a)
  CanHop-Ahead i (e, n, glide j k a em h) = (j, a)

  pub Slide-Ahead : (i : ℕ) (mov : Move) → Slide m ps king d mov i → (n : ℕ) × Ahead m king d i n
  Slide-Ahead i mov (step n a e q) = (n, a)
  Slide-Ahead i mov (slide j k a e s) = (j, a)

  module _ (i next : ℕ) (here : Ahead m king d i next) where
    same_square : (n : ℕ) → Ahead m king d i n → n ≡ next
    same_square n a = Diagonal-unique d i n next a.1 here.1

    -- What holds of the square ahead.
    pub at_next : (P : ℕ → Type 0) → P next ↔ ((n : ℕ) × Ahead m king d i n × P n)
    at_next P = (λ p. (next, here, p), λ (n, a, p). subst P (same_square n a) p)

    abbrev Hops : (ℕ → ℕ → Type 0) → ℕ → Type 0
    Hops B j = (e : ℕ) × (n : ℕ) × Hop m ps king d e n j × B e n

    abbrev Over : (ℕ → ℕ → Type 0) → Type 0
    Over B = IsEnemy m ps next × ((n : ℕ) × Ahead m king d next n × (IsEmpty ps n × B next n))

    Hops-at :
        (B : ℕ → ℕ → Type 0) → Hops B i ↔ (Over B ⊎ ((king ≡ true) × IsEmpty ps next × Hops B next))
    Hops-at B = (split, join)
      where
        split : Hops B i → Over B ⊎ ((king ≡ true) × IsEmpty ps next × Hops B next)
        split (e, n, jump a en b em, r) = inl (
            subst (λ x. IsEnemy m ps x × ((y : ℕ) × Ahead m king d x y × (IsEmpty ps y × B x y)))
              (same_square e a) (en, (n, b, (em, r))))
        split (e, n, glide j k a em h, r) = inr (
            subst (λ x. (king ≡ true) × IsEmpty ps x × Hops B x) (same_square j a)
              (k, em, (e, n, h, r)))

        join : Over B ⊎ ((king ≡ true) × IsEmpty ps next × Hops B next) → Hops B i
        join (inl (en, (n, b, (em, r)))) = (next, n, jump here en b em, r)
        join (inr (k, em, (e, n, h, r))) = (e, n, glide next k here em h, r)

    pub CanHop-at : CanHop m ps king d i ↔ (
        (IsEnemy m ps next × CanLand next)
        ⊎ ((king ≡ true) × IsEmpty ps next × CanHop m ps king d next))
    CanHop-at =
        let B : ℕ → ℕ → Type 0 = λ _ _. Unit in
        ↔-trans (λ (e, n, h). (e, n, h, tt), λ (e, n, h, _). (e, n, h))
          (↔-trans (Hops-at B) (
            ⊎-map
              (
                λ (en, (n, a, (em, _))). (en, (n, a, em)),
                λ (en, (n, a, em)). (en, (n, a, (em, tt))),
              )
              (
                λ (k, em, (e, n, h, _)). (k, em, (e, n, h)),
                λ (k, em, (e, n, h)). (k, em, (e, n, h, tt)),
              )))

    pub Tour-at :
        (mov : Move)
        → Tour m ps king d i mov ↔ (
            (IsEnemy m ps next × Lands next mov)
            ⊎ ((king ≡ true) × IsEmpty ps next × Tour m ps king d next mov))
    Tour-at mov = ↔-trans Tour-split (
        ↔-trans (Hops-at (λ e n. Beyond m ps king e n mov)) (
          ⊎-map (λ h. h, λ h. h)
            (λ (k, em, h). (k, em, Tour-split.1 h), λ (k, em, t). (k, em, Tour-split.0 t))))

    pub Slide-at :
        (mov : Move)
        → Slide m ps king d mov i ↔ (
            IsEmpty ps next
            × ((mov ≡ step_of m next) ⊎ ((king ≡ true) × Slide m ps king d mov next)))
    Slide-at mov = (split, join)
      where
        Rest : ℕ → Type 0
        Rest x = IsEmpty ps x × ((mov ≡ step_of m x) ⊎ ((king ≡ true) × Slide m ps king d mov x))

        split : Slide m ps king d mov i → Rest next
        split (step n a e q) = subst Rest (same_square n a) (e, inl q)
        split (slide j k a e s) = subst Rest (same_square j a) (e, inr (k, s))

        join : Rest next → Slide m ps king d mov i
        join (e, inl q) = step next here e q
        join (e, inr (k, s)) = slide next k here e s
