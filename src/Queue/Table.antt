-- ===== src/Queue/Table.antt =====
-- Looking up what was inserted or removed.
use psychic_fiesta.Prelude.{ℕ, none, some, [], ◌∷◌, ◌≡◌, ◌≢◌, refl, arith}
use psychic_fiesta.Queue.{Entry, Table, get, remove, insert}

pub get-remove : (t : Table) (id : ℕ) → get (remove t id) id ≡ none
unfolding get remove
get-remove [] id = refl
get-remove ((k, e) ∷ t) id = ground (arith, get-remove t id)

pub get-remove_ne : (t : Table) (id other : ℕ) → other ≢ id → get (remove t id) other ≡ get t other
unfolding get remove
get-remove_ne [] id other ne = refl
get-remove_ne ((k, e) ∷ t) id other ne = ground (arith, get-remove_ne t id other ne)

pub get-insert : (t : Table) (id : ℕ) (e : Entry) → get (insert t id e) id ≡ some e
unfolding get insert
get-insert t id e = ground arith

pub get-insert_ne :
    (t : Table) (id other : ℕ) (e : Entry) → other ≢ id → get (insert t id e) other ≡ get t other
unfolding get insert
get-insert_ne t id other e ne = ground (arith, get-remove_ne t id other ne)
