-- ===== src/Types/Decode.antt =====
-- Readers of the fields of a JSON object, by their names, in which a field that is absent stands for
-- the empty value.
use go_exasol.Base.Int.{ℤ, pos}
use go_exasol.Base.{
  ℕ, Bool, false, List, [], ◌∷◌, Option, none, some, Bytes, lit, equal, if◌then◌else◌,
}
use go_exasol.Types.Json.{
  Json, null, boolean, number, text, value, array, object, Items, array_end, item, Fields,
  object_end, field,
}
use go_exasol.Types.{SqlQueryColumnType, SqlQueryColumn}

infixl 5 ◌>>=◌
abbrev pub ◌>>=◌ : {A B : Type 0} → Option A → (A → Option B) → Option B
none >>= f = none
some a >>= f = f a

module _ {V : Type 0} where
  unfoldable pub lookup : Bytes → Fields V → Option (Json V)
  lookup name object_end = none
  lookup name (field other j rest) = if equal name other then some j else lookup name rest

  abbrev pub read_text : Option (Json V) → Option Bytes
  read_text none = some []
  read_text (some (text s)) = some s
  read_text (some j) = none

  abbrev pub read_number : Option (Json V) → Option ℤ
  read_number none = some (pos 0)
  read_number (some (number z)) = some z
  read_number (some j) = none

  abbrev pub read_count : Option (Json V) → Option ℕ
  read_count none = some 0
  read_count (some (number (pos n))) = some n
  read_count (some j) = none

  abbrev pub read_flag : Option (Json V) → Option Bool
  read_flag none = some false
  read_flag (some (boolean b)) = some b
  read_flag (some j) = none

  -- What a pointer points to, if it is not nil.
  abbrev pub read_pointed :
      {A : Type 0} → (Option (Json V) → Option A) → Option (Json V) → Option (Option A)
  read_pointed read none = some none
  read_pointed read (some j) = read (some j) >>= λ a. some (some a)

  unfoldable pub read_items : {A : Type 0} → (Json V → Option A) → Items V → Option (List A)
  read_items read array_end = some []
  read_items read (item j rest) = do a ← read j; list ← read_items read rest; some (a ∷ list)

  abbrev pub read_array : {A : Type 0} → (Json V → Option A) → Option (Json V) → Option (List A)
  read_array read none = some []
  read_array read (some (array items)) = read_items read items
  read_array read (some j) = none

  -- Null, or an array.
  abbrev pub read_slice : {A : Type 0} → (Json V → Option A) → Json V → Option (Option (List A))
  read_slice read null = some none
  read_slice read (array items) = read_items read items >>= λ list. some (some list)
  read_slice read j = none

  abbrev pub read_value : Json V → Option V
  read_value (value v) = some v
  read_value j = none

  abbrev pub read_object : {A : Type 0} → (Fields V → Option A) → Option (Json V) → Option A
  read_object read (some (object fields)) = read fields
  read_object read j = none

  unfoldable pub read_column_type : Fields V → Option SqlQueryColumnType
  read_column_type fields = do
    type ← read_text (lookup (lit "type") fields)
    precision ← read_pointed read_number (lookup (lit "precision") fields)
    scale ← read_pointed read_number (lookup (lit "scale") fields)
    size ← read_pointed read_number (lookup (lit "size") fields)
    character_set ← read_pointed read_text (lookup (lit "characterSet") fields)
    with_local_time_zone ← read_pointed read_flag (lookup (lit "withLocalTimeZone") fields)
    fraction ← read_pointed read_number (lookup (lit "fraction") fields)
    srid ← read_pointed read_number (lookup (lit "srid") fields)
    some (record {
      type = type;
      precision = precision;
      scale = scale;
      size = size;
      character_set = character_set;
      with_local_time_zone = with_local_time_zone;
      fraction = fraction;
      srid = srid;
    })

  abbrev pub read_column : Json V → Option SqlQueryColumn
  read_column j =
      read_object
        (λ fields. (do
          name ← read_text (lookup (lit "name") fields)
          data_type ← read_object read_column_type (lookup (lit "dataType") fields)
          some (record { name = name; data_type = data_type })))
        (some j)
