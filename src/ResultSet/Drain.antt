-- ===== src/ResultSet/Drain.antt =====
-- Reading a result set to its end, against a server that hands out a table.
use go_exasol.Base.{
  ℕ, zero, suc, ◌+◌, ◌≤◌, ◌≡◌, refl, sym, subst, List, ltb, arith, Bool-cases, inl, inr,
}
use go_exasol.Connection.{Connection}
use go_exasol.Errors.{eof}
use go_exasol.ResultSet.Serve.{collect, rows_from, HoldsRows, Serves}
use go_exasol.ResultSet.{QueryResults, next}
use go_exasol.Result.{ok, err}
use go_exasol.Wire.{Wire}
use go_exasol.ResultSet.Window.{Window, next-Window, next-done}

module _ {World V Raw : Type 0} {wire : Wire World V Raw} {P : Connection World → Type 0}
    {handle total width : ℕ} {table : ℕ → List V}
    (server : Serves wire P handle total width table) where
  collect-Window :
      (n : ℕ) (q : QueryResults V) (t limit : ℕ) (c : Connection World)
      → Window server q t limit
      → t + n ≡ total
      → P c
      → (q' : QueryResults V) × (c' : Connection World) × (limit' : ℕ) × (collect wire n width q c
          ≡ (ok (q', rows_from table t n), c'))
        × P c'
        × Window server q' total limit'
  unfolding collect
  collect-Window zero q t limit c w e p =
      let here : t ≡ total = omega arith in
      (q, c, limit, refl, p, subst (λ u. Window server q u limit) here w)
  collect-Window (suc n) q t limit c w e p =
      let (q', c', limit', first, p', w') = next-Window server q t limit c w (omega arith) p in
      let (last, c'', limit'', rest, p'', w'') =
        collect-Window n q' (t + 1) limit' c' w' (omega arith) p' in
      (last, c'', limit'', rw (first, rest), p'', w'')

  -- A result set as `ToRow` makes it: nothing is read yet, and if the message holds all rows, they
  -- are those of the table.
  pub record IsFresh (q : QueryResults V) : Type 0 where
    pub rows : q.result_data.num_rows ≡ total
    pub handle_is : q.result_data.result_set_handle ≡ handle
    pub nothing_fetched : q.fetched_rows ≡ 0
    pub at_start : (q.total_row_pointer ≡ 0) × (q.row_pointer ≡ 0)
    pub in_message :
        total ≤ q.result_data.num_rows_in_message
        → HoldsRows width table 0 total q.result_data.data_columns

  fresh-Window : (q : QueryResults V) → IsFresh q → (limit : ℕ) × Window server q 0 limit
  fresh-Window q f = elim (Bool-cases (ltb q.result_data.num_rows_in_message total)) [
    | inl part ↦ (
      0,
      record {
        base = 0;
        position = omega arith;
        pointer = f.at_start.0;
        rows = f.rows;
        handle_is = f.handle_is;
        reached = omega arith;
        bounded = omega arith;
        whole = λ e. ground arith;
        part = λ e. sym f.nothing_fetched;
        cells = λ i r hi hr. absurd (omega arith);
      },
    )
    | inr whole ↦ (
      total,
      record {
        base = 0;
        position = omega arith;
        pointer = f.at_start.0;
        rows = f.rows;
        handle_is = f.handle_is;
        reached = omega arith;
        bounded = omega arith;
        whole = λ e. refl;
        part = λ e. ground arith;
        cells = λ i r hi hr. f.in_message (ground arith) i r hi (omega arith);
      },
    )
  ]

  -- Reading a fresh result set: as many calls of `Next` as there are rows return the rows of the
  -- table, each once and in order, however the server cuts them into messages, and the call after
  -- them returns `io.EOF` and leaves the connection alone.
  pub collect-rows :
      (q : QueryResults V) (c : Connection World)
      → IsFresh q
      → P c
      → (q' : QueryResults V) × (c' : Connection World) × (collect wire total width q c
          ≡ (ok (q', rows_from table 0 total), c'))
        × (next wire width q' c' ≡ (err eof, c'))
  collect-rows q c f p =
      let (limit, w) = fresh-Window q f in
      let (q', c', limit', read, p', w') = collect-Window total q 0 limit c w (omega arith) p in
      (q', c', read, next-done server q' limit' c' w')
