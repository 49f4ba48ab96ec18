-- ===== src/ResultSet/Serve.antt =====
-- The database's side of a result set: a table, of which a fetch returns some rows.
use go_exasol.Base.Int.{times}
use go_exasol.Base.{
  ℕ, zero, suc, ◌+◌, ◌≤◌, ◌<◌, ◌≡◌, refl, subst, List, [], ◌∷◌, some, arith, length, get_elem?,
}
use go_exasol.Connection.Send.{send}
use go_exasol.Connection.{Connection, M, return, ◌>>=◌}
use go_exasol.ResultSet.{QueryResults, cell, read_row, next}
use go_exasol.Result.{ok}
use go_exasol.Types.{SqlQueryResponseResultSetData, fetch_command}
use go_exasol.Wire.{Wire, background}

-- `n` calls of `Next` in a row, each of which must return a row.
unfoldable pub collect :
    {World V Raw : Type 0}
    → Wire World V Raw
    → ℕ
    → ℕ
    → QueryResults V
    → M World (QueryResults V × List (List V))
collect wire zero width results = return (results, [])
collect wire (suc n) width results = do
  (results', row) ← next wire width results
  (last, rows) ← collect wire n width results'
  return (last, row ∷ rows)

-- The rows `start`, `start + 1`, …: `n` of them.
abbrev pub rows_from : {V : Type 0} → (ℕ → List V) → ℕ → ℕ → List (List V)
rows_from table start zero = []
rows_from table start (suc n) = table start ∷ rows_from table (start + 1) n

-- The message's columns hold `n` rows of the table from row `start` on.
abbrev pub HoldsRows : {V : Type 0} → ℕ → (ℕ → List V) → ℕ → ℕ → List (List V) → Type 0
HoldsRows width table start n columns =
    (i r : ℕ) → i < width → r < n → cell columns i r ≡ get_elem? (table (start + r)) i

-- What the database promises of a result set: in every state of the connection that satisfies `P`,
-- the answer to a fetch holds at least one row, and just the rows from the position asked for.
pub record Serves {World V Raw : Type 0} (wire : Wire World V Raw) (P : Connection World → Type 0)
    (handle total width : ℕ) (table : ℕ → List V) : Type 0 where
  pub row_length : (t : ℕ) → t < total → length (table t) ≡ width
  pub serve :
      (c : Connection World) (start : ℕ)
      → P c
      → start < total
      → (chunk : SqlQueryResponseResultSetData V) × (c' : Connection World) × (send wire background
            (fetch_command handle start (times c.config.fetch_size 1024))
            wire.decode_fetched
            c
          ≡ (ok chunk, c'))
        × P c'
        × (0 < chunk.num_rows)
        × (start + chunk.num_rows ≤ total)
        × HoldsRows width table start chunk.num_rows chunk.data_columns

-- A row is read where each of its cells is there.
pub read_row_lem :
    {V : Type 0} (n i r : ℕ) (columns : List (List V)) (row : List V)
    → length row ≡ n
    → ((j : ℕ) → j < n → cell columns (i + j) r ≡ get_elem? row j)
    → read_row n i columns r ≡ ok row
unfolding read_row
read_row_lem zero i r columns [] e h = refl
read_row_lem zero i r columns (v ∷ row) e h = absurd (omega arith)
read_row_lem (suc n) i r columns [] e h = absurd (omega arith)
read_row_lem {V} (suc n) i r columns (v ∷ row) e h =
    let here : i + 0 ≡ i = omega arith in
    let first : cell columns i r ≡ some v =
      subst (λ k. cell columns k r ≡ some v) here (h 0 (omega arith)) in
    rw (first, read_row_lem n (i + 1) r columns row (omega arith) later)
  where
    later : (j : ℕ) → j < n → cell columns (i + 1 + j) r ≡ get_elem? row j
    later j lt =
        let there : i + suc j ≡ i + 1 + j = omega arith in
        subst (λ k. cell columns k r ≡ get_elem? row j) there (h (suc j) (omega arith))
