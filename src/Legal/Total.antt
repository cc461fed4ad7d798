-- ===== src/Legal/Total.antt =====
-- Where `check_move` returns, and that what it then returns is exact.
use psychic_fiesta.Prelude.{ℕ, ◌<◌, Bool, false, ◌≡◌, ◌≢◌, ◌⊎◌, inl, inr, refl, length}
use psychic_fiesta.Prelude.Outcome.{Outcome, done, panic, undefined, stuck}
use psychic_fiesta.Prelude.Holds.{Holds-done}
use psychic_fiesta.Game.{Direction}
use psychic_fiesta.Legal.{Pieces, Found, Mover, check_move}
use psychic_fiesta.Legal.Spec.{Safe, Describes}
use psychic_fiesta.Legal.Sound.{check_move-Safe}
use psychic_fiesta.Legal.Ends.{Ends, measure, check_move-Ends}
use psychic_fiesta.Legal.Panics.{Guarded, check_move-Calm}
use psychic_fiesta.Legal.Taking.{ExactAt}
use psychic_fiesta.Legal.Exact.{check_move-Exact}

-- A call without undefined behaviour that ends returns or panics.
pub done_or_panic {ℓ} :
    {A : Type ℓ} (P : A → Type 0) (r : Outcome A)
    → Safe P r
    → Ends r
    → ((a : A) × (r ≡ done a)) ⊎ (r ≡ panic)
done_or_panic P (done a) s e = inl (a, refl)
done_or_panic P panic s e = inr refl
done_or_panic P undefined s e = absurd s
done_or_panic P stuck s e = absurd e

-- On a board of 32 squares, from a square of the board other than 28, with enough fuel, and while an
-- active piece that the mover cannot take stands on square 28, `check_move` returns, and what it
-- returns is exact: nothing, if the piece can neither capture nor step in the direction; the captures
-- of that direction, each of them and nothing else, if it can capture there; and else the steps, each
-- of them and nothing else. A capture is a tour: jump after jump, with each piece taken off at once and
-- a man that reaches the row farthest ahead going on as a king, for as long as there is a further jump;
-- a man of the opponent is no king on square 28 of that row.
pub check_move-ExactAt :
    (fuel : ℕ) (m : Mover) (ps : Pieces) (i : ℕ) (is_king : Bool) (d : Direction)
    → length ps ≡ 32
    → i < 32
    → i ≢ 28
    → Guarded m ps
    → measure ps i d < fuel
    → (found : Found) × (check_move fuel m ps i is_king d false ≡ done found)
      × ExactAt m ps i is_king d false found
check_move-ExactAt fuel m ps i is_king d size small away guard enough =
    elim (done_or_panic (Describes m ps) (check_move fuel m ps i is_king d false)
      (check_move-Safe fuel m ps i is_king d false (λ e. cc))
      (check_move-Ends fuel m ps i is_king d false size small (λ e. cc) enough)) [
        | inl (found, e) ↦ (
          found,
          e,
          Holds-done _ _ found (check_move-Exact fuel m ps i is_king d false size small) e,
        )
        | inr e ↦ absurd (check_move-Calm fuel m ps i is_king d false size guard small away e)
      ]
