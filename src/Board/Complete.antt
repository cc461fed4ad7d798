-- ===== src/Board/Complete.antt =====
-- Gathered moves are exact where what each direction or piece found is.
use psychic_fiesta.Prelude.{ℕ, true, false, none, some, List, [], ◌∷◌}
use psychic_fiesta.Prelude.{◌≡◌, ◌⊎◌, inl, inr, Bool-cases, All}
use psychic_fiesta.Game.{Move}
use psychic_fiesta.Legal.{Found}
use psychic_fiesta.Legal.Listing.{Exactly, Lists, Lists-map, Lists-append, Any, ⊎-right}
use psychic_fiesta.Legal.Listing.{only_captures-Listed, only_captures-quiet}
use psychic_fiesta.Board.Moves.{finish_found}
use psychic_fiesta.Board.Gather.{any_capture, any_found, collect, mandatory, fold_found, Uniform}
use psychic_fiesta.Board.Gather.{fold_found-mandatory}

module _ {X : Type 0} (C : X → Type 0) (T Q : X → Move → Type 0) where
  -- Each of the places `xs` has its result, and that is exact.
  abbrev pub Exacts : List X → List Found → Type 0
  Exacts [] [] = Unit
  Exacts (x ∷ xs) (f ∷ fs) = Exactly (C x) (T x) (Q x) f × Exacts xs fs
  Exacts _ _ = ⊥

  module _ (only : (x : X) (mov : Move) → T x mov → C x) where
    neither : {A B : Type 0} → ¬ A → ¬ B → ¬ (A ⊎ B)
    neither a b (inl h) = a h
    neither a b (inr h) = b h

    can_capture : (xs : List X) (fs : List Found) → Exacts xs fs → any_capture fs ≡ true → Any C xs
    can_capture [] [] h e = cc
    can_capture [] (f ∷ fs) h e = absurd h
    can_capture (x ∷ xs) [] h e = absurd h
    can_capture (x ∷ xs) (none ∷ fs) h e = inr (can_capture xs fs h.1 e)
    can_capture (x ∷ xs) (some (moves, true) ∷ fs) h e = inl h.0.0
    can_capture (x ∷ xs) (some (moves, false) ∷ fs) h e = inr (can_capture xs fs h.1 e)

    cannot_capture :
        (xs : List X) (fs : List Found) → Exacts xs fs → any_capture fs ≡ false → ¬ Any C xs
    cannot_capture [] [] h e = λ c. c
    cannot_capture [] (f ∷ fs) h e = absurd h
    cannot_capture (x ∷ xs) [] h e = absurd h
    cannot_capture (x ∷ xs) (none ∷ fs) h e = neither h.0.0 (cannot_capture xs fs h.1 e)
    cannot_capture (x ∷ xs) (some (moves, true) ∷ fs) h e = cc
    cannot_capture (x ∷ xs) (some (moves, false) ∷ fs) h e =
        neither h.0.0 (cannot_capture xs fs h.1 e)

    skip :
        {A : Type 0} {R R' : Move → Type 0} (moves : List Move)
        → ((mov : Move) → R mov → A)
        → ¬ A
        → Lists R' moves
        → Lists (λ mov. R mov ⊎ R' mov) moves
    skip moves so never l = Lists-map moves (λ mov. ⊎-right (λ r. never (so mov r))) l

    collect-tours :
        (xs : List X) (fs : List Found)
        → Exacts xs fs
        → Lists (λ mov. Any (λ x. T x mov) xs) (collect true fs)
    collect-tours [] [] h = λ mov. (λ l. l, λ l. l)
    collect-tours [] (f ∷ fs) h = absurd h
    collect-tours (x ∷ xs) [] h = absurd h
    collect-tours (x ∷ xs) (none ∷ fs) h =
        skip (collect true fs) (only x) h.0.0 (collect-tours xs fs h.1)
    collect-tours (x ∷ xs) (some (moves, true) ∷ fs) h =
        Lists-append moves (collect true fs) h.0.1 (collect-tours xs fs h.1)
    collect-tours (x ∷ xs) (some (moves, false) ∷ fs) h =
        skip (collect true fs) (only x) h.0.0 (collect-tours xs fs h.1)

    collect-slides :
        (xs : List X) (fs : List Found)
        → Exacts xs fs
        → any_capture fs ≡ false
        → Lists (λ mov. Any (λ x. Q x mov) xs) (collect false fs)
    collect-slides [] [] h e = λ mov. (λ l. l, λ l. l)
    collect-slides [] (f ∷ fs) h e = absurd h
    collect-slides (x ∷ xs) [] h e = absurd h
    collect-slides (x ∷ xs) (none ∷ fs) h e =
        Lists-map (collect false fs) (λ mov. ⊎-right (h.0.1 mov)) (collect-slides xs fs h.1 e)
    collect-slides (x ∷ xs) (some (moves, true) ∷ fs) h e = cc
    collect-slides (x ∷ xs) (some (moves, false) ∷ fs) h e =
        Lists-append moves (collect false fs) h.0.1 (collect-slides xs fs h.1 e)

    nothing_found :
        (xs : List X) (fs : List Found)
        → Exacts xs fs
        → any_found fs ≡ false
        → ¬ Any C xs × ((mov : Move) → ¬ Any (λ x. Q x mov) xs)
    nothing_found [] [] h e = (λ c. c, λ mov q. q)
    nothing_found [] (f ∷ fs) h e = absurd h
    nothing_found (x ∷ xs) [] h e = absurd h
    nothing_found (x ∷ xs) (none ∷ fs) h e =
        let (c, q) = nothing_found xs fs h.1 e in
        (neither h.0.0 c, λ mov. neither (h.0.1 mov) (q mov))
    nothing_found (x ∷ xs) (some found ∷ fs) h e = cc

    -- Put together they are exact for all places: the captures of all, or where no place captures
    -- the quiet moves of all.
    pub mandatory-Exactly :
        (xs : List X) (fs : List Found)
        → Exacts xs fs
        → Exactly
            (Any C xs)
            (λ mov. Any (λ x. T x mov) xs)
            (λ mov. Any (λ x. Q x mov) xs)
            (mandatory fs)
    mandatory-Exactly xs fs h = elim (Bool-cases (any_found fs)) [
      | inr f ↦ rw f (nothing_found xs fs h f)
      | inl f ↦ elim (Bool-cases (any_capture fs)) [
        | inl c ↦ rw (f, c) (can_capture xs fs h c, collect-tours xs fs h)
        | inr c ↦ rw (f, c) (cannot_capture xs fs h c, collect-slides xs fs h c)
      ]
    ]

  module _ (takes : (x : X) (mov : Move) → T x mov → (l : List ℕ) × (mov.captured ≡ some l))
      (quiet : (x : X) (mov : Move) → Q x mov → mov.captured ≡ none) where
    pub Exacts-Uniform : (xs : List X) (fs : List Found) → Exacts xs fs → All Uniform fs
    Exacts-Uniform [] [] h = tt
    Exacts-Uniform [] (f ∷ fs) h = absurd h
    Exacts-Uniform (x ∷ xs) [] h = absurd h
    Exacts-Uniform (x ∷ xs) (none ∷ fs) h = (tt, Exacts-Uniform xs fs h.1)
    Exacts-Uniform (x ∷ xs) (some (moves, true) ∷ fs) h = (
      only_captures-Listed moves (λ mov l. takes x mov ((h.0.1 mov).0 l)),
      Exacts-Uniform xs fs h.1,
    )
    Exacts-Uniform (x ∷ xs) (some (moves, false) ∷ fs) h = (
      only_captures-quiet moves (λ mov l. quiet x mov ((h.0.1 mov).0 l)),
      Exacts-Uniform xs fs h.1,
    )

    -- What the loops over directions and pieces return is exact, if each round was.
    pub fold_found-Exactly :
        (only : (x : X) (mov : Move) → T x mov → C x)
        → (xs : List X) (fs : List Found) → Exacts xs fs
        → Exactly
            (Any C xs)
            (λ mov. Any (λ x. T x mov) xs)
            (λ mov. Any (λ x. Q x mov) xs)
            (finish_found (fold_found fs (none, false)))
    fold_found-Exactly only xs fs h =
        rw (fold_found-mandatory fs (Exacts-Uniform xs fs h)) (mandatory-Exactly only xs fs h)
