-- ===== src/Legal/Taken.antt =====
-- Taking a piece off the board: what holds of captures found on the board without it, and the loop
-- that appends the piece to them, where `unwrap_unchecked` is safe.
use psychic_fiesta.Prelude.{ℕ, Bool, true, false, ◌||◌, Option, none, some}
use psychic_fiesta.Prelude.{List, [], ◌∷◌, ◌++◌, ◌≡◌, ◌≢◌, ◌⊎◌, inl, inr, refl, sym, ◌∙◌, arith}
use psychic_fiesta.Prelude.{All, All-append, get_elem?, set, get_elem?-set_self, get_elem?-set_ne}
use mathlib.Core.List.{concat-ne-nil}
use psychic_fiesta.Prelude.{◌==◌, ==_iff, Bool-cases}
use psychic_fiesta.Prelude.Outcome.{Outcome}
use psychic_fiesta.Game.{const_default, Move, Direction}
use psychic_fiesta.Legal.{Pieces, Found, Mover, push_captured, keep_further}
use psychic_fiesta.Legal.{further_moves, append_moves}
use psychic_fiesta.Legal.Spec.{IsEmpty, IsEnemy, Among, IsCapture, Describes, Safe}
use psychic_fiesta.Legal.Spec.{Safe-bind, Distinct-concat, Among-append, Among-concat, IsEnemy-lt}

module _ (m : Mover) (ps : Pieces) (i : ℕ) (enemy : IsEnemy m ps i) where
  abbrev ps' : Pieces
  ps' = set ps i const_default

  i-default : get_elem? ps' i ≡ some const_default
  i-default = get_elem?-set_self ps i const_default (IsEnemy-lt m ps i enemy)

  -- On the board without the piece taken, the other enemies are those of the board.
  IsEnemy-before : (c : ℕ) → IsEnemy m ps' c → IsEnemy m ps c × (c ≢ i)
  IsEnemy-before c (t, e, a, k) = elim (Bool-cases (i == c)) [
    | inl same ↦ absurd (ground (arith, i-default, ==_iff i c))
    | inr other ↦
        let ne : i ≢ c = ground arith in
        ((t, sym (get_elem?-set_ne ps i c const_default ne) ∙ e, a, k), λ q. ne (sym q))
  ]

  IsEmpty-before : (c : ℕ) → IsEmpty ps' c → IsEmpty ps c ⊎ (c ≡ i)
  IsEmpty-before c (t, e, a) = elim (Bool-cases (i == c)) [
    | inl same ↦ inr (ground arith)
    | inr other ↦
        let ne : i ≢ c = ground arith in
        inl (t, sym (get_elem?-set_ne ps i c const_default ne) ∙ e, a)
  ]

  enemies_before :
      (xs : List ℕ) → All (IsEnemy m ps') xs → All (IsEnemy m ps) xs × All (λ y. y ≢ i) xs
  enemies_before [] h = (tt, tt)
  enemies_before (x ∷ xs) h =
      let (e, ne) = IsEnemy-before x h.0 in
      let (es, nes) = enemies_before xs h.1 in ((e, es), (ne, nes))

  lands_before :
      (c : ℕ) (xs : List ℕ) → IsEmpty ps' c ⊎ Among c xs → IsEmpty ps c ⊎ Among c (xs ++ (i ∷ []))
  lands_before c xs (inl e) = elim (IsEmpty-before c e) [
    | inl old ↦ inl old
    | inr here ↦ inr (rw here (Among-concat i xs))
  ]
  lands_before c xs (inr h) = inr (Among-append c xs (i ∷ []) h)

  -- A capture on the board without that piece, with the piece appended.
  pub IsCapture-push :
      (promoted : Bool) (mov : Move)
      → (cap : IsCapture m ps' mov)
      → IsCapture m ps
          (record mov { captured = some (cap.squares ++ (i ∷ [])); promoted = promoted })
  IsCapture-push promoted mov cap =
      let (old, fresh) = enemies_before cap.squares cap.enemies in
      record {
        squares = cap.squares ++ (i ∷ []);
        taken = refl;
        some_taken = concat-ne-nil i cap.squares;
        enemies = All-append (IsEnemy m ps) cap.squares (i ∷ []) old (enemy, tt);
        distinct = Distinct-concat cap.squares i cap.distinct fresh;
        from = cap.from;
        lands = lands_before mov.end cap.squares cap.lands;
      }

  push_captured-Safe :
      (promoting : Bool) (moves : List Move)
      → All (IsCapture m ps') moves
      → Safe
          (λ out. All (IsCapture m ps) out × (moves ≢ [] → out ≢ []))
          (push_captured i promoting moves)
  unfolding push_captured
  push_captured-Safe promoting [] h = (tt, λ ne. ne)
  push_captured-Safe promoting (mov ∷ moves) (cap, caps) = rw cap.taken (
      Safe-bind _ _ (push_captured i promoting moves) _ (push_captured-Safe promoting moves caps)
        (λ rest h. ((IsCapture-push (mov.promoted || promoting) mov cap, h.0), λ _ e. cc)))

  -- The accumulator of the loop over further directions.
  abbrev pub Kept : Option (List Move) → Type 0
  Kept none = Unit
  Kept (some moves) = All (IsCapture m ps) moves × (moves ≢ [])

  append_moves-Kept :
      (acc : Option (List Move)) (moves : List Move)
      → Kept acc
      → All (IsCapture m ps) moves × (moves ≢ [])
      → Kept (append_moves acc moves)
  append_moves-Kept none moves k h = h
  append_moves-Kept (some []) moves k h = absurd (k.1 refl)
  append_moves-Kept (some (x ∷ acc)) moves k h =
      (All-append (IsCapture m ps) (x ∷ acc) moves k.0 h.0, λ e. cc)

  keep_further-Safe :
      (promoting : Bool) (acc : Option (List Move)) (found : Found)
      → Kept acc
      → Describes m ps' found
      → Safe Kept (keep_further i promoting acc found)
  unfolding keep_further
  keep_further-Safe promoting acc none k h = k
  keep_further-Safe promoting acc (some (moves, false)) k h = k
  keep_further-Safe promoting acc (some (moves, true)) k h =
      Safe-bind _ Kept (push_captured i promoting moves) _ (push_captured-Safe promoting moves h.0)
        (λ pushed g. append_moves-Kept acc pushed k (g.0, g.1 h.1))

  pub further_moves-Safe :
      (call : Direction → Outcome Found) (promoting : Bool)
      → ((d : Direction) → Safe (Describes m ps') (call d))
      → (ds : List Direction) (acc : Option (List Move)) → Kept acc
      → Safe Kept (further_moves call i promoting ds acc)
  unfolding further_moves
  further_moves-Safe call promoting h [] acc k = k
  further_moves-Safe call promoting h (d ∷ ds) acc k =
      Safe-bind (Describes m ps') Kept (call d) _ (h d) (λ found hf.
        Safe-bind Kept Kept (keep_further i promoting acc found) _
          (keep_further-Safe promoting acc found k hf)
          (λ acc' k'. further_moves-Safe call promoting h ds acc' k'))
