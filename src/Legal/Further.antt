-- ===== src/Legal/Further.antt =====
-- The loop of `check_move` over the directions after a capture finds each way to go on.
use psychic_fiesta.Prelude.{ℕ, Bool, true, false, ◌||◌, Option, none, some, List, [], ◌∷◌, ◌++◌}
use psychic_fiesta.Prelude.{◌≡◌, ◌⊎◌, ◌↔◌, inl, inr, refl}
use psychic_fiesta.Prelude.Outcome.{Outcome, done, or_undefined, ◌>>=◌}
use psychic_fiesta.Prelude.Holds.{Holds, Holds-bind, Holds-done, Holds-map}
use psychic_fiesta.Game.{Move, Direction}
use psychic_fiesta.Legal.{Found, push_captured, keep_further, further_moves, append_moves}
use psychic_fiesta.Legal.Tours.{Extends}
use psychic_fiesta.Legal.Listing.{Listed, Lists, Lists-map, Any, Exactly, Gathered, ⊎-assoc}
use psychic_fiesta.Legal.Listing.{↔-sym, append_moves-Gathered, Gathered-skip, Gathered-map, ⊎-left}

-- A call that returns as `P` says, and a continuation that makes `Q` of it.
pub Holds-then :
    {A B : Type 0} (P : A → Type 0) (Q : B → Type 0) (r : Outcome A) (f : A → Outcome B)
    → Holds P r
    → ((a : A) → P a → Holds Q (f a))
    → Holds Q (r >>= f)
Holds-then P Q r f h k = Holds-bind Q r f (λ a e. k a (Holds-done P r a h e))

or_undefined-done : {A : Type 0} (o : Option A) (a : A) → or_undefined o ≡ done a → o ≡ some a
or_undefined-done none a e = cc
or_undefined-done (some x) a e = cc

module _ (e : ℕ) (promoting : Bool) where
  abbrev pub Extended : (Move → Type 0) → Move → Type 0
  Extended T mov = (mov' : Move) × T mov' × Extends e promoting mov' mov

  push_one :
      (x : Move) (xs : List ℕ) (moves rest : List Move)
      → x.captured ≡ some xs
      → Lists (Extended (λ mov'. Listed mov' moves)) rest
      → Lists
          (Extended (λ mov'. Listed mov' (x ∷ moves)))
          (record x { captured = some (xs ++ (e ∷ [])); promoted = x.promoted || promoting } ∷ rest)
  push_one x xs moves rest c h mov = (found, listed)
    where
      y : Move
      y = record x { captured = some (xs ++ (e ∷ [])); promoted = x.promoted || promoting }

      found : Listed mov (y ∷ rest) → Extended (λ mov'. Listed mov' (x ∷ moves)) mov
      found (inl q) = (x, inl refl, (xs, c, q))
      found (inr l) = let (mov', l', ext) = (h mov).0 l in (mov', inr l', ext)

      listed : Extended (λ mov'. Listed mov' (x ∷ moves)) mov → Listed mov (y ∷ rest)
      listed (mov', inl q, (ys, c', r)) = inl (cc)
      listed (mov', inr l, ext) = inr ((h mov).1 (mov', l, ext))

  push_captured-Lists :
      (moves : List Move)
      → Holds (Lists (Extended (λ mov'. Listed mov' moves))) (push_captured e promoting moves)
  unfolding push_captured
  push_captured-Lists [] = λ mov. (λ l. absurd l, λ (mov', l, ext). absurd l)
  push_captured-Lists (x ∷ moves) = Holds-bind _ (or_undefined x.captured) _ (λ xs c.
      Holds-then _ _ (push_captured e promoting moves) _ (push_captured-Lists moves)
        (λ rest h. push_one x xs moves rest (or_undefined-done x.captured xs c) h))

  Extended-map :
      {T T' : Move → Type 0}
      → ((mov : Move) → T mov ↔ T' mov)
      → (mov : Move) → Extended T mov ↔ Extended T' mov
  Extended-map t mov =
      (λ (mov', h, ext). (mov', (t mov').0 h, ext), λ (mov', h, ext). (mov', (t mov').1 h, ext))

  module _ {C C' : Type 0} {T T' : Move → Type 0} (only : (mov : Move) → T mov → C)
      (only' : (mov : Move) → T' mov → C') where
    keep_further-Gathered :
        (Q' : Move → Type 0) (acc : Option (List Move)) (found : Found)
        → Gathered C T acc
        → Exactly C' T' Q' found
        → Holds
            (Gathered (C ⊎ C') (λ mov. T mov ⊎ Extended T' mov))
            (keep_further e promoting acc found)
    unfolding keep_further
    keep_further-Gathered Q' acc none k h =
        Gathered-skip only acc k h.0 (λ mov (mov', t, _). h.0 (only' mov' t))
    keep_further-Gathered Q' acc (some (moves, false)) k h =
        Gathered-skip only acc k h.0 (λ mov (mov', t, _). h.0 (only' mov' t))
    keep_further-Gathered Q' acc (some (moves, true)) k h =
        Holds-then _ _ (push_captured e promoting moves) (λ pushed. done (append_moves acc pushed))
          (push_captured-Lists moves)
          (λ pushed l.
            append_moves-Gathered only acc pushed k h.0 (Lists-map pushed (Extended-map h.1) l))

  -- In each direction `call` finds what is to be found; then the loop finds what there is in one of
  -- the directions, which it has appended to what it had.
  module _ (call : Direction → Outcome Found) (C' : Direction → Type 0)
      (T' Q' : Direction → Move → Type 0) (only' : (d : Direction) (mov : Move) → T' d mov → C' d)
      (exact : (d : Direction) → Holds (Exactly (C' d) (T' d) (Q' d)) (call d)) where
    pub further_moves-Gathered :
        (ds : List Direction) {C : Type 0} {T : Move → Type 0}
        → ((mov : Move) → T mov → C)
        → (acc : Option (List Move)) → Gathered C T acc
        → Holds
            (Gathered (C ⊎ Any C' ds) (λ mov. T mov ⊎ Any (λ d. Extended (T' d) mov) ds))
            (further_moves call e promoting ds acc)
    unfolding further_moves
    further_moves-Gathered [] only acc k =
        Gathered-map (⊎-left (λ a. a)) (λ mov. ⊎-left (λ a. a)) acc k
    further_moves-Gathered (d ∷ ds) {C} {T} only acc k =
        Holds-then _ _ (call d) _ (exact d) (λ found f.
          Holds-then _ _ (keep_further e promoting acc found) _
            (keep_further-Gathered only (only' d) (Q' d) acc found k f)
            (λ acc' g.
              Holds-map _ _ (further_moves call e promoting ds acc')
                (Gathered-map (↔-sym ⊎-assoc) (λ mov. ↔-sym ⊎-assoc))
                (further_moves-Gathered ds (either d) acc' g)))
      where
        either : (d : Direction) (mov : Move) → T mov ⊎ Extended (T' d) mov → C ⊎ C' d
        either d mov (inl t) = inl (only mov t)
        either d mov (inr (mov', t, _)) = inr (only' d mov' t)
