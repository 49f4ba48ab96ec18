-- ===== src/Types/RoundTrip.antt =====
-- Every request can be read back.
use go_exasol.Base.Int.{ℤ, pos, negsuc}
use go_exasol.Base.{
  ℕ, zero, suc, Bool, List, [], ◌∷◌, Option, none, some, Bytes, lit, equal, if◌then◌else◌, ◌≡◌,
  refl, ap, arith,
}
use go_exasol.Types.Decode.{
  lookup, read_text, read_number, read_count, read_flag, read_pointed, read_items, read_array,
  read_slice, read_value, read_object, read_column_type, read_column,
}
use go_exasol.Types.Requests.{
  read_login_attributes, read_max_rows, read_auth, read_execute_prepared, read_command,
  read_request,
}
use go_exasol.Types.Encode.{
  login_attributes, no_attributes, attributes_json, count, column_type_json, column_json, auth_json,
  execute_prepared_json, to_json,
}
use go_exasol.Types.Json.{
  Json, boolean, number, text, value, object, Fields, fields_of, items_of, filled_text,
  filled_number, pointed, filled_array, slice,
}
use go_exasol.Types.{
  SqlQueryColumnType, SqlQueryColumn, LoginAttributes, AuthCommand, ExecutePreparedStatementCommand,
  Request, login_command, login_token_command, auth_command, sql_command,
  create_prepared_statement_command, execute_prepared_statement_command,
  close_prepared_statement_command, close_result_set_command, fetch_command, disconnect_command,
  abort_query_command,
}

module _ (V : Type 0) where
  abbrev or_else : Option (Json V) → Option (Json V) → Option (Json V)
  or_else none other = other
  or_else (some j) other = some j

  -- The first field of a name that is not omitted.
  abbrev find : Bytes → List (Bytes × Option (Json V)) → Option (Json V)
  find name [] = none
  find name ((other, j) ∷ rest) =
      let later = find name rest in if equal name other then or_else j later else later

  lookup-fields_of :
      (name : Bytes) (xs : List (Bytes × Option (Json V)))
      → lookup name (fields_of xs) ≡ find name xs
  unfolding lookup fields_of
  lookup-fields_of name [] = refl
  lookup-fields_of name ((other, none) ∷ rest) = ground (arith, lookup-fields_of name rest)
  lookup-fields_of name ((other, some j) ∷ rest) =
      ap (λ found. if equal name other then some j else found) (lookup-fields_of name rest)

  read_text-filled : (s : Bytes) → read_text {V = V} (or_else (filled_text s) none) ≡ some s
  read_text-filled [] = refl
  read_text-filled (c ∷ s) = refl

  read_number-filled : (z : ℤ) → read_number {V = V} (or_else (filled_number z) none) ≡ some z
  read_number-filled (pos zero) = refl
  read_number-filled (pos (suc n)) = refl
  read_number-filled (negsuc n) = refl

  read_count-filled : (n : ℕ) → read_count {V = V} (or_else (filled_number (pos n)) none) ≡ some n
  read_count-filled zero = refl
  read_count-filled (suc n) = refl

  read_pointed-number :
      (o : Option ℤ) → read_pointed {V = V} read_number (or_else (pointed number o) none) ≡ some o
  read_pointed-number none = refl
  read_pointed-number (some z) = refl

  read_pointed-text :
      (o : Option Bytes) → read_pointed {V = V} read_text (or_else (pointed text o) none) ≡ some o
  read_pointed-text none = refl
  read_pointed-text (some z) = refl

  read_pointed-flag :
      (o : Option Bool) → read_pointed {V = V} read_flag (or_else (pointed boolean o) none) ≡ some o
  read_pointed-flag none = refl
  read_pointed-flag (some z) = refl

  module _ {A : Type 0} (read : Json V → Option A) (encode : A → Json V)
      (back : (a : A) → read (encode a) ≡ some a) where
    read_items-items_of : (list : List A) → read_items read (items_of encode list) ≡ some list
    unfolding read_items items_of
    read_items-items_of [] = refl
    read_items-items_of (a ∷ rest) = rw (back a) (rw (read_items-items_of rest) refl)

    read_slice-slice : (o : Option (List A)) → read_slice read (slice encode o) ≡ some o
    read_slice-slice none = refl
    read_slice-slice (some list) = rw (read_items-items_of list) refl

    read_array-filled :
        (list : List A) → read_array read (or_else (filled_array encode list) none) ≡ some list
    read_array-filled [] = refl
    read_array-filled (a ∷ rest) = read_items-items_of (a ∷ rest)

  ruleset reading = (
    lookup-fields_of, read_text-filled, read_number-filled, read_count-filled, read_pointed-number,
    read_pointed-text, read_pointed-flag,
  )

  read_column_type-json :
      (t : SqlQueryColumnType)
      → read_object {V = V} read_column_type (some (column_type_json t)) ≡ some t
  unfolding read_column_type column_type_json
  read_column_type-json t = simp reading

  read_login_attributes-json :
      (a : LoginAttributes)
      → read_object {V = V} read_login_attributes (some (attributes_json (login_attributes a)))
        ≡ some a
  unfolding read_login_attributes attributes_json
  read_login_attributes-json a = simp reading

  read_max_rows-json :
      (z : ℤ)
      → read_object {V = V} read_max_rows
          (some (attributes_json (record no_attributes { result_set_max_rows = z })))
        ≡ some z
  unfolding read_max_rows attributes_json
  read_max_rows-json z = simp reading

  read_auth-json : (a : AuthCommand) → read_object {V = V} read_auth (some (auth_json a)) ≡ some a
  unfolding read_auth auth_json
  read_auth-json a = simp (reading, read_login_attributes-json)

  read_column-json : (c : SqlQueryColumn) → read_column {V = V} (column_json c) ≡ some c
  unfolding column_json
  read_column-json c = simp (reading, read_column_type-json)

  read_columns-json :
      (list : List SqlQueryColumn)
      → read_array {V = V} read_column (or_else (filled_array column_json list) none) ≡ some list
  read_columns-json = read_array-filled read_column column_json read_column-json

  read_data-json :
      (rows : List (Option (List V)))
      → read_items (read_slice read_value) (items_of (slice value) rows) ≡ some rows
  read_data-json =
      read_items-items_of (read_slice read_value) (slice value)
        (read_slice-slice read_value value (λ v. refl))

  read_execute_prepared-json :
      (e : ExecutePreparedStatementCommand V)
      → read_object read_execute_prepared (some (execute_prepared_json e)) ≡ some e
  unfolding read_execute_prepared execute_prepared_json
  read_execute_prepared-json e =
      simp (reading, read_columns-json, read_data-json, read_max_rows-json)

  read_handles-json :
      (list : List ℕ)
      → read_items (λ j. read_count {V = V} (some j)) (items_of count list) ≡ some list
  read_handles-json = read_items-items_of (λ j. read_count (some j)) count (λ n. refl)

  dispatch_auth :
      (fields : Fields V) (a : AuthCommand)
      → lookup (lit "command") fields ≡ none
      → read_auth fields ≡ some a
      → read_request (object fields) ≡ some (auth_command a)
  unfolding read_request
  dispatch_auth fields a none_named back = rw (read_request, none_named) (rw back refl)

  dispatch_execute_prepared :
      (fields : Fields V) (e : ExecutePreparedStatementCommand V)
      → lookup (lit "command") fields ≡ some (text (lit "executePreparedStatement"))
      → read_execute_prepared fields ≡ some e
      → read_request (object fields) ≡ some (execute_prepared_statement_command e)
  unfolding read_request read_command
  dispatch_execute_prepared fields e named back =
      rw (read_request, named) (rw (read_command, back) refl)

  -- A reader that knows the protocol reads back every request from the JSON value that is sent for
  -- it, whatever fields are omitted because they are empty.
  pub read_request-to_json : (r : Request V) → read_request (to_json r) ≡ some r
  unfolding read_request read_command to_json
  read_request-to_json (login_command version) = unfold lookup fields_of in refl
  read_request-to_json (login_token_command version) = unfold lookup fields_of in refl
  read_request-to_json (auth_command a) =
      unfold auth_json in dispatch_auth _ a (lookup-fields_of (lit "command") _) (read_auth-json a)
  read_request-to_json (sql_command query max_rows) =
      unfold lookup fields_of in rw (read_max_rows-json max_rows) refl
  read_request-to_json (create_prepared_statement_command query) = unfold lookup fields_of in refl
  read_request-to_json (execute_prepared_statement_command e) =
      unfold execute_prepared_json in
      dispatch_execute_prepared _ e (lookup-fields_of (lit "command") _)
        (read_execute_prepared-json e)
  read_request-to_json (close_prepared_statement_command handle) = unfold lookup fields_of in refl
  read_request-to_json (close_result_set_command handles) =
      unfold lookup fields_of in rw (read_handles-json handles) refl
  read_request-to_json (fetch_command handle start bytes) = unfold lookup fields_of in refl
  read_request-to_json disconnect_command = unfold lookup fields_of in refl
  read_request-to_json abort_query_command = unfold lookup fields_of in refl
