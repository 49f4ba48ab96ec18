-- ===== src/ResultSet/Window.antt =====
-- The messages of a result set as a window on a table, and what a call of `Next` does to it.
use go_exasol.Base.Int.{times}
use go_exasol.Base.{
  ℕ, ◌+◌, ◌≤◌, ◌<◌, ◌≡◌, sym, subst₂, ◌&&◌, ◌||◌, true, false, List, ◌==◌, ltb, leb, arith,
  get_elem?, Bool-cases, inl, inr,
}
use go_exasol.Connection.Send.{send}
use go_exasol.Connection.{Connection}
use go_exasol.Errors.{eof}
use go_exasol.ResultSet.Serve.{Serves, read_row_lem}
use go_exasol.ResultSet.{QueryResults, cell, read_row, refill, next}
use go_exasol.Result.{ok, err}
use go_exasol.Types.{fetch_command}
use go_exasol.Wire.{Wire, background}

module _ {World V Raw : Type 0} {wire : Wire World V Raw} {P : Connection World → Type 0}
    {handle total width : ℕ} {table : ℕ → List V}
    (server : Serves wire P handle total width table) where
  -- Between two calls, row `t` is next, and the message holds the rows from `base` up to `limit`.
  pub record Window (q : QueryResults V) (t limit : ℕ) : Type 0 where
    pub base : ℕ
    pub position : base + q.row_pointer ≡ t
    pub pointer : q.total_row_pointer ≡ t
    pub rows : q.result_data.num_rows ≡ total
    pub handle_is : q.result_data.result_set_handle ≡ handle
    pub reached : t ≤ limit
    pub bounded : limit ≤ total
    pub whole : ltb q.result_data.num_rows_in_message total ≡ false → limit ≡ total
    pub part : ltb q.result_data.num_rows_in_message total ≡ true → limit ≡ q.fetched_rows
    pub cells :
        (i r : ℕ)
        → i < width
        → base + r < limit
        → cell q.result_data.data_columns i r ≡ get_elem? (table (base + r)) i

  -- A refill leaves row `t` in the message.
  refill-Window :
      (q : QueryResults V) (t limit : ℕ) (c : Connection World)
      → Window q t limit
      → t < total
      → P c
      → (q' : QueryResults V) × (c' : Connection World) × (limit' : ℕ) × (refill wire q c
          ≡ (ok q', c'))
        × P c'
        × Window q' t limit'
        × (t < limit')
  unfolding refill
  refill-Window q t limit c w h p =
      elim (Bool-cases (
        ltb q.result_data.num_rows_in_message q.result_data.num_rows
        && q.total_row_pointer == q.fetched_rows)) [
          | inl empty ↦
              let (chunk, c', sent, p', some_rows, fits, holds) = server.serve c t p h in
              let asked : send wire background
                    (fetch_command q.result_data.result_set_handle q.total_row_pointer
                      (times c.config.fetch_size 1024))
                    wire.decode_fetched c
                  ≡ (ok chunk, c') =
                subst₂
                  (λ a b.
                    send wire background (fetch_command a b (times c.config.fetch_size 1024))
                      wire.decode_fetched c
                    ≡ (ok chunk, c'))
                  (sym w.handle_is) (sym w.pointer) sent in
              (
                record q {
                  row_pointer = 0;
                  fetched_rows = q.fetched_rows + chunk.num_rows;
                  result_data = record (q.result_data) { data_columns = chunk.data_columns };
                },
                c',
                t + chunk.num_rows,
                rw (empty, asked),
                p',
                record {
                  base = t;
                  position = omega arith;
                  pointer = w.pointer;
                  rows = w.rows;
                  handle_is = w.handle_is;
                  reached = omega arith;
                  bounded = fits;
                  whole = λ e. ground arith;
                  part = λ e. ground arith;
                  cells = λ i r hi hr. holds i r hi (omega arith);
                },
                omega arith,
              )
          | inr full ↦ (q, c, limit, rw full, p, w, ground arith)
        ]

  -- In a window that reaches past it, row `t` is read.
  read-Window :
      (q : QueryResults V) (t limit : ℕ)
      → Window q t limit
      → t < limit
      → read_row width 0 q.result_data.data_columns q.row_pointer ≡ ok (table t)
  read-Window q t limit w lt =
      read_row_lem width 0 q.row_pointer q.result_data.data_columns (table t)
        (server.row_length t (omega (arith, w.bounded))) at_column
    where
      at_column :
          (j : ℕ)
          → j < width
          → cell q.result_data.data_columns (0 + j) q.row_pointer ≡ get_elem? (table t) j
      at_column j h =
          let zero_add : j ≡ 0 + j = omega arith in
          subst₂ (λ k u. cell q.result_data.data_columns k q.row_pointer ≡ get_elem? (table u) j)
            zero_add w.position (w.cells j q.row_pointer h (omega arith))

  -- With a row left, `Next` returns it and leaves the next one in front.
  pub next-Window :
      (q : QueryResults V) (t limit : ℕ) (c : Connection World)
      → Window q t limit
      → t < total
      → P c
      → (q' : QueryResults V) × (c' : Connection World) × (limit' : ℕ) × (next wire width q c
          ≡ (ok (q', table t), c'))
        × P c'
        × Window q' (t + 1) limit'
  unfolding next
  next-Window q t limit c w h p =
      let (q', c', limit', filled, p', w', lt) = refill-Window q t limit c w h p in
      let running : (q.result_data.num_rows == 0 || leb q.result_data.num_rows q.total_row_pointer)
          ≡ false =
        ground arith in
      (
        record q' {
          row_pointer = q'.row_pointer + 1;
          total_row_pointer = q'.total_row_pointer + 1;
        },
        c',
        limit',
        rw (running, filled, read-Window q' t limit' w' lt),
        p',
        record {
          base = w'.base;
          position = omega arith;
          pointer = omega arith;
          rows = w'.rows;
          handle_is = w'.handle_is;
          reached = omega arith;
          bounded = w'.bounded;
          whole = w'.whole;
          part = w'.part;
          cells = w'.cells;
        },
      )

  pub next-done :
      (q : QueryResults V) (limit : ℕ) (c : Connection World)
      → Window q total limit
      → next wire width q c ≡ (err eof, c)
  unfolding next
  next-done q limit c w =
      let over : (q.result_data.num_rows == 0 || leb q.result_data.num_rows q.total_row_pointer)
          ≡ true =
        ground arith in
      rw over
