-- ===== src/Legal/Listing.antt =====
-- What was found against what is to be found: lists of moves that hold a move exactly where a
-- predicate holds of it.
use psychic_fiesta.Prelude.{ℕ, true, false, Option, none, some, List, [], ◌∷◌, ◌++◌}
use psychic_fiesta.Prelude.{◌≡◌, ◌⊎◌, ◌↔◌, inl, inr, refl}
use psychic_fiesta.Game.{Move}
use psychic_fiesta.Legal.{Found, only_captures, append_moves}

abbrev pub Listed : Move → List Move → Type 0
Listed mov [] = ⊥
Listed mov (x ∷ xs) = (mov ≡ x) ⊎ Listed mov xs

abbrev pub Any : {A : Type 0} → (A → Type 0) → List A → Type 0
Any P [] = ⊥
Any P (x ∷ xs) = P x ⊎ Any P xs

-- The list holds the moves that satisfy `T` and no others.
abbrev pub Lists : (Move → Type 0) → List Move → Type 0
Lists T moves = (mov : Move) → Listed mov moves ↔ T mov

-- `C` says that a capture is possible, `T` which moves capture and `Q` which do not: where a capture
-- is possible, those alone were found, and else the quiet moves, each of them.
abbrev pub Exactly : Type 0 → (Move → Type 0) → (Move → Type 0) → Found → Type 0
Exactly C T Q none = ¬ C × ((mov : Move) → ¬ Q mov)
Exactly C T Q (some (moves, true)) = C × Lists T moves
Exactly C T Q (some (moves, false)) = ¬ C × Lists Q moves

pub ↔-trans : {A B C : Type 0} → A ↔ B → B ↔ C → A ↔ C
↔-trans f g = (λ a. g.0 (f.0 a), λ c. f.1 (g.1 c))

pub ↔-sym : {A B : Type 0} → A ↔ B → B ↔ A
↔-sym f = (f.1, f.0)

pub Lists-map :
    {T T' : Move → Type 0} (moves : List Move)
    → ((mov : Move) → T mov ↔ T' mov)
    → Lists T moves
    → Lists T' moves
Lists-map moves t h mov = ↔-trans (h mov) (t mov)

pub Exactly-map :
    {C C' : Type 0} {T T' Q Q' : Move → Type 0}
    → C ↔ C'
    → ((mov : Move) → T mov ↔ T' mov)
    → ((mov : Move) → Q mov ↔ Q' mov)
    → (found : Found) → Exactly C T Q found
    → Exactly C' T' Q' found
Exactly-map c t q none h = (λ k. h.0 (c.1 k), λ mov k. h.1 mov ((q mov).1 k))
Exactly-map c t q (some (moves, true)) h = (c.0 h.0, Lists-map moves t h.1)
Exactly-map c t q (some (moves, false)) h = (λ k. h.0 (c.1 k), Lists-map moves q h.1)

pub ⊎-map : {A A' B B' : Type 0} → (A ↔ A') → (B ↔ B') → (A ⊎ B) ↔ (A' ⊎ B')
⊎-map f g = (
  elim [ inl a ↦ inl (f.0 a) | inr b ↦ inr (g.0 b) ],
  elim [ inl a ↦ inl (f.1 a) | inr b ↦ inr (g.1 b) ],
)

pub ⊎-assoc : {A B C : Type 0} → (A ⊎ (B ⊎ C)) ↔ ((A ⊎ B) ⊎ C)
⊎-assoc = (
  elim [ inl a ↦ inl (inl a) | inr s ↦ elim s [ inl b ↦ inl (inr b) | inr c ↦ inr c ] ],
  elim [ inl s ↦ elim s [ inl a ↦ inl a | inr b ↦ inr (inl b) ] | inr c ↦ inr (inr c) ],
)

pub ↔-refl : {A : Type 0} → A ↔ A
↔-refl = (λ a. a, λ a. a)

-- Where one of two alternatives is impossible.
pub ⊎-left : {A B : Type 0} → ¬ B → A ↔ (A ⊎ B)
⊎-left never = (λ a. inl a, elim [ inl a ↦ a | inr b ↦ absurd (never b) ])

pub ⊎-right : {A B : Type 0} → ¬ A → B ↔ (A ⊎ B)
⊎-right never = (λ b. inr b, elim [ inl a ↦ absurd (never a) | inr b ↦ b ])

pub Listed-append :
    (mov : Move) (xs ys : List Move) → Listed mov (xs ++ ys) ↔ (Listed mov xs ⊎ Listed mov ys)
Listed-append mov [] ys = ⊎-right (λ h. h)
Listed-append mov (x ∷ xs) ys = ↔-trans (⊎-map ↔-refl (Listed-append mov xs ys)) ⊎-assoc

pub Lists-append :
    {T T' : Move → Type 0} (xs ys : List Move)
    → Lists T xs
    → Lists T' ys
    → Lists (λ mov. T mov ⊎ T' mov) (xs ++ ys)
Lists-append xs ys h k mov = ↔-trans (Listed-append mov xs ys) (⊎-map (h mov) (k mov))

pub Lists-one : (x : Move) → Lists (λ mov. mov ≡ x) (x ∷ [])
Lists-one x mov = (elim [ inl e ↦ e | inr h ↦ absurd h ], λ e. inl e)

pub only_captures-Listed :
    (moves : List Move)
    → ((mov : Move) → Listed mov moves → (xs : List ℕ) × (mov.captured ≡ some xs))
    → only_captures moves ≡ moves
unfolding only_captures
only_captures-Listed [] h = refl
only_captures-Listed (x ∷ moves) h =
    simp ((h x (inl refl)).1, only_captures-Listed moves (λ mov l. h mov (inr l)))

pub only_captures-quiet :
    (moves : List Move)
    → ((mov : Move) → Listed mov moves → mov.captured ≡ none)
    → only_captures moves ≡ []
unfolding only_captures
only_captures-quiet [] h = refl
only_captures-quiet (x ∷ moves) h =
    simp (h x (inl refl), only_captures-quiet moves (λ mov l. h mov (inr l)))

-- The accumulator of a loop that keeps captures.
abbrev pub Gathered : Type 0 → (Move → Type 0) → Option (List Move) → Type 0
Gathered C T none = ¬ C
Gathered C T (some moves) = C × Lists T moves

pub Gathered-map :
    {C C' : Type 0} {T T' : Move → Type 0}
    → C ↔ C'
    → ((mov : Move) → T mov ↔ T' mov)
    → (acc : Option (List Move)) → Gathered C T acc
    → Gathered C' T' acc
Gathered-map c t none k = λ c'. k (c.1 c')
Gathered-map c t (some acc) k = (c.0 k.0, Lists-map acc t k.1)

module _ {C C' : Type 0} {T T' : Move → Type 0} (only : (mov : Move) → T mov → C) where
  pub append_moves-Gathered :
      (acc : Option (List Move)) (moves : List Move)
      → Gathered C T acc
      → C'
      → Lists T' moves
      → Gathered (C ⊎ C') (λ mov. T mov ⊎ T' mov) (append_moves acc moves)
  append_moves-Gathered none moves never c h =
      (inr c, Lists-map moves (λ mov. ⊎-right (λ t. never (only mov t))) h)
  append_moves-Gathered (some acc) moves k c h = (inl k.0, Lists-append acc moves k.1 h)

  pub Gathered-skip :
      (acc : Option (List Move))
      → Gathered C T acc
      → ¬ C'
      → ((mov : Move) → ¬ T' mov)
      → Gathered (C ⊎ C') (λ mov. T mov ⊎ T' mov) acc
  Gathered-skip none never c t = elim [ inl k ↦ never k | inr k ↦ c k ]
  Gathered-skip (some acc) k c t = (inl k.0, Lists-map acc (λ mov. ⊎-left (t mov)) k.1)
