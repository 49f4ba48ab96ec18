-- ===== src/ResultSet.antt =====
-- `QueryResults` of pkg/connection/result_set.go, and `ToRow` of util.go. Row and column counts and
-- the pointers are numbers; the mutex guards nothing in the file and is left out.
pub mod Serve
pub mod Window
pub mod Drain
use go_exasol.Base.Int.{ℤ, pos, times}
use go_exasol.Base.{
  ℕ, zero, suc, ◌+◌, Bool, true, false, ◌&&◌, ◌||◌, List, [], ◌∷◌, map, Option, none, some, Bytes,
  lit, equal, ◌==◌, ltb, leb, if◌then◌else◌, get_elem?,
}
use go_exasol.Connection.Send.{send, send_only}
use go_exasol.Connection.{Connection, M, return, lift, ◌>>=◌}
use go_exasol.Errors.{Error, eof}
use go_exasol.Result.{Result, ok, err, panic, or_panic}
use go_exasol.Types.{
  SqlQueryColumn, SqlQueryResponseResultSetData, SqlQueriesResponse, close_result_set_command,
  fetch_command,
}
use go_exasol.Wire.{Wire, background}

pub record QueryResults (V : Type 0) : Type 0 where
  pub result_data : SqlQueryResponseResultSetData V
  pub fetched_rows : ℕ
  pub total_row_pointer : ℕ
  pub row_pointer : ℕ

-- The types that `ColumnTypeScanType` returns.
pub data ScanType : Type 0 where
  raw_bytes null_bool null_float64 any_interface : ScanType

-- `Data[i][r]`, where it exists
abbrev pub cell : {V : Type 0} → List (List V) → ℕ → ℕ → Option V
cell columns i r = elim (get_elem? columns i) [ none ↦ none | some column ↦ get_elem? column r ]

abbrev prepend : {V : Type 0} → Option V → Result (List V) → Result (List V)
prepend none rest = panic
prepend (some v) (ok row) = ok (v ∷ row)
prepend (some v) (err e) = err e
prepend (some v) panic = panic

-- `for i := range dest { dest[i] = Data[i][rowPointer] }`, with `width` entries left from `i` on
unfoldable pub read_row : {V : Type 0} → ℕ → ℕ → List (List V) → ℕ → Result (List V)
read_row zero i columns r = ok []
read_row (suc width) i columns r = prepend (cell columns i r) (read_row width (i + 1) columns r)

module _ {V : Type 0} (results : QueryResults V) where
  open results use {result_data}

  unfoldable pub column_type_database_type_name : ℕ → Result Bytes
  column_type_database_type_name index = elim (get_elem? result_data.columns index) [
    | none ↦ panic
    | some column ↦ ok column.data_type.type
  ]

  abbrev both : Option ℤ → Option ℤ → ℤ × ℤ × Bool
  both (some precision) (some scale) = (precision, scale, true)
  both (some precision) none = (pos 0, pos 0, false)
  both none scale = (pos 0, pos 0, false)

  unfoldable pub column_type_precision_scale : ℕ → Result (ℤ × ℤ × Bool)
  column_type_precision_scale index = elim (get_elem? result_data.columns index) [
    | none ↦ panic
    | some column ↦ ok (both column.data_type.precision column.data_type.scale)
  ]

  abbrev length_of : Option ℤ → ℤ × Bool
  length_of (some size) = (size, true)
  length_of none = (pos 0, false)

  unfoldable pub column_type_length : ℕ → Result (ℤ × Bool)
  column_type_length index = elim (get_elem? result_data.columns index) [
    | none ↦ panic
    | some column ↦ ok (length_of column.data_type.size)
  ]

  unfoldable pub column_type_nullable : ℕ → Bool × Bool
  column_type_nullable index = (true, true)

  abbrev scan_type : Bytes → ScanType
  scan_type name =
      if equal name (lit "VARCHAR")
        || equal name (lit "CHAR")
        || equal name (lit "GEOMETRY")
        || equal name (lit "HASHTYPE")
        || equal name (lit "INTERVAL DAY TO SECOND")
        || equal name (lit "INTERVAL YEAR TO MONTH")
      then raw_bytes
      else if equal name (lit "BOOLEAN")
      then null_bool
      else if equal name (lit "DOUBLE")
      then null_float64
      else any_interface

  unfoldable pub column_type_scan_type : ℕ → Result ScanType
  unfolding column_type_database_type_name
  column_type_scan_type index = elim (column_type_database_type_name index) [
    | ok name ↦ ok (scan_type name)
    | err e ↦ err e
    | panic ↦ panic
  ]

  unfoldable pub column_names : List Bytes
  column_names = map (λ (column : SqlQueryColumn). column.name) result_data.columns

module _ {World V Raw : Type 0} (wire : Wire World V Raw) where
  unfoldable pub close_results : QueryResults V → M World (Unit {0})
  close_results results c =
      if results.result_data.result_set_handle == 0
      then (ok tt, c)
      else send_only wire background
          (close_result_set_command (results.result_data.result_set_handle ∷ [])) c

  -- The test for a fetch, and the fetch: the new rows take the place of the old ones.
  unfoldable pub refill : QueryResults V → M World (QueryResults V)
  refill results c =
      let d = results.result_data in
      if ltb d.num_rows_in_message d.num_rows && results.total_row_pointer == results.fetched_rows
      then (do
        result ←
            send wire background
              (fetch_command d.result_set_handle results.total_row_pointer
                (times c.config.fetch_size 1024))
              wire.decode_fetched
        return (record results {
          row_pointer = 0;
          fetched_rows = results.fetched_rows + result.num_rows;
          result_data = record d { data_columns = result.data_columns };
        }))
          c
      else (ok results, c)

  advance : QueryResults V → List V → QueryResults V × List V
  advance results row = (
    record results {
      row_pointer = results.row_pointer + 1;
      total_row_pointer = results.total_row_pointer + 1;
    },
    row,
  )

  -- `Next` on a destination of `width` entries: the results after it, and the row that it filled in.
  unfoldable pub next : ℕ → QueryResults V → M World (QueryResults V × List V)
  unfolding advance
  next width results c =
      if results.result_data.num_rows == 0
        || leb results.result_data.num_rows results.total_row_pointer
      then (err eof, c)
      else (do
        current ← refill results
        row ← lift (read_row width 0 current.result_data.data_columns current.row_pointer)
        return (advance current row))
          c

  -- `ToRow`: `Results[0]` panics where there is none.
  unfoldable pub to_row : SqlQueriesResponse Raw → Result (QueryResults V)
  to_row response = elim response.results [
    | [] ↦ panic
    | raw ∷ rest ↦ elim (wire.decode_result_set raw) [
      | ok d ↦ ok (record {
        result_data = d.result_set;
        fetched_rows = 0;
        total_row_pointer = 0;
        row_pointer = 0;
      })
      | err e ↦ err e
      | panic ↦ panic
    ]
  ]
