-- ===== src/Rows.antt =====
-- `slint::VecModel`, which the board keeps its pieces and squares in: a parameter of the model, with
-- the documented behaviour of its `Model` methods. Out of range `row_data` is `None`, and what
-- `set_row_data` does there is left open.
use psychic_fiesta.Prelude.{ℕ, ◌<◌, Option, List, ◌≡◌, refl, length, get_elem?, set}
use psychic_fiesta.Prelude.{ltb, lt→ltb, if◌then◌else◌}
use psychic_fiesta.Prelude.Outcome.{Outcome, done, panic}

pub record VecModel (A : Type 0) : Type 1 where
  pub Rows : Type 0
  pub from_vec : List A → Rows
  pub contents : Rows → List A
  pub row_count : Rows → ℕ
  pub row_data : Rows → ℕ → Option A
  pub set_row_data : Rows → ℕ → A → Outcome Rows
  pub contents-from_vec : (l : List A) → contents (from_vec l) ≡ l
  pub row_count_lem : (r : Rows) → row_count r ≡ length (contents r)
  pub row_data_lem : (r : Rows) (i : ℕ) → row_data r i ≡ get_elem? (contents r) i
  pub set_row_data_lem :
      (r : Rows) (i : ℕ) (v : A)
      → i < length (contents r)
      → (r' : Rows) × (set_row_data r i v ≡ done r') × (contents r' ≡ set (contents r) i v)

-- The list itself, where a write out of range panics: the assumptions can be met.
abbrev pub list_set : {A : Type 0} → List A → ℕ → A → Outcome (List A)
list_set l i v = if ltb i (length l) then done (set l i v) else panic

pub list_set_lem :
    {A : Type 0} (l : List A) (i : ℕ) (v : A)
    → i < length l
    → (r : List A) × (list_set l i v ≡ done r) × (r ≡ set l i v)
list_set_lem l i v h = (set l i v, rw (lt→ltb i (length l) h), refl)

abbrev pub list_model : (A : Type 0) → VecModel A
list_model A = record {
  Rows = List A;
  from_vec = λ l. l;
  contents = λ l. l;
  row_count = length;
  row_data = get_elem?;
  set_row_data = list_set;
  contents-from_vec = λ l. refl;
  row_count_lem = λ l. refl;
  row_data_lem = λ l i. refl;
  set_row_data_lem = list_set_lem;
}
