-- ===== src/Sql/Json/Table.antt =====
-- The JSON array that `get_json` of src/sql.tpp builds is read back to the rows.
use mathlib.Core.List.{append_assoc}
use apiserver_asymetric_encr.Base.{
  length, All, ℕ, zero, suc, ◌<◌, ◌≡◌, refl, ap, true, false, none, some, List, [], ◌∷◌, ◌++◌, map,
  arith,
}
use apiserver_asymetric_encr.Text.{Bytes}
use apiserver_asymetric_encr.Sql.Rows.{Cell}
use apiserver_asymetric_encr.Sql.Fetch.{ReturnCode, sql_success, is_success, GetData}
use apiserver_asymetric_encr.Sql.Results.{read_all}
use apiserver_asymetric_encr.Sql.Describe.{described}
use apiserver_asymetric_encr.Sql.Json.{ColumnMeta}
use apiserver_asymetric_encr.Sql.Json.Build.{fetch_and_build_json}
use apiserver_asymetric_encr.Sql.Json.Built.{FitsBuffer, json_row_calls, fetch_and_build_json_lem}
use apiserver_asymetric_encr.Sql.Json.Plain.{columns_text, row_text, zip_columns, rows_text}
use apiserver_asymetric_encr.Sql.Json.Reader.{Object, expect, read_object, read_objects, read_array}
use apiserver_asymetric_encr.Sql.Json.RoundTrip.{IsFitting, member_of, read_members-columns_text}

length-zip :
    (meta : List ColumnMeta) (cells : List Cell)
    → length cells ≡ length meta
    → length (zip_columns meta cells) ≡ length meta
length-zip [] cells h = refl
length-zip (m ∷ meta) [] h = absurd (omega arith)
length-zip (m ∷ meta) (c ∷ cells) h = ap suc (length-zip meta cells (omega arith))

module _ (meta : List ColumnMeta) (some_columns : 0 < length meta) where
  -- A row has a cell for each column, and numbers where the column is numeric.
  abbrev pub IsRow : List Cell → Type 0
  IsRow cells = (length cells ≡ length meta) × All IsFitting (zip_columns meta cells)

  abbrev pub object_of : List Cell → Object
  object_of cells = map member_of (zip_columns meta cells)

  read_object-row_text :
      (cells : List Cell) (rest : Bytes)
      → IsRow cells
      → read_object (length meta) (row_text (zip_columns meta cells) ++ rest)
        ≡ some (object_of cells, rest)
  unfolding read_object row_text expect
  read_object-row_text cells rest fit =
      rw (append_assoc (columns_text (zip_columns meta cells)) (b'}' ∷ []) rest) (
        read_members-columns_text (length meta) (zip_columns meta cells) rest
          (omega (arith, length-zip meta cells fit.0, some_columns))
          (omega (arith, length-zip meta cells fit.0)) fit.1)

  read_objects-rows_text :
      (fuel : ℕ) (cells : List Cell) (rows : List (List Cell)) (end : Bytes)
      → length rows < fuel
      → IsRow cells
      → All IsRow rows
      → read_objects
          (length meta)
          fuel
          (row_text (zip_columns meta cells) ++ (rows_text meta false rows ++ (b']' ∷ end)))
        ≡ some (map object_of (cells ∷ rows), end)
  unfolding read_objects rows_text expect
  read_objects-rows_text zero cells rows end h fit fits = absurd (omega arith)
  read_objects-rows_text (suc fuel) cells [] end h fit fits =
      rw (read_object-row_text cells (b']' ∷ end) fit, read_objects) refl
  read_objects-rows_text (suc fuel) cells (next ∷ rows) end h fit fits =
      let behind =
        row_text (zip_columns meta next) ++ (rows_text meta false rows ++ (b']' ∷ end)) in
      rw (append_assoc (row_text (zip_columns meta next)) (rows_text meta false rows) (b']' ∷ end))
        (rw (read_object-row_text cells (b',' ∷ behind) fit, read_objects)
          (rw (read_objects-rows_text fuel next rows end (omega arith) fits.0 fits.1) refl))

  has_cells :
      (rows : List (List Cell)) → All IsRow rows → All (λ cells. length cells ≡ length meta) rows
  has_cells [] f = tt
  has_cells (cells ∷ rows) ((e, fit), fs) = (e, has_cells rows fs)

  -- With a driver that does what the ODBC reference says, for a result set with columns, whose
  -- names are shorter than their buffer, and rows that have a cell for each of them, shorter than
  -- its buffer and a number in the grammar of JSON where the column is numeric: a text is built, a
  -- reader of JSON accepts it whole, and it gives the rows up to the first SQLFetch that was no
  -- success, each column under its name, nulls as nulls.
  pub read_array-fetch_and_build_json :
      (spare : Bytes) (rows : List (List Cell)) (code : ReturnCode)
      (later : List (ReturnCode × List (List GetData)))
      → All (λ m. length m.name < 256) meta
      → All IsRow rows
      → All (All FitsBuffer) rows
      → is_success code ≡ false
      → (text : Bytes) × (fetch_and_build_json
            (sql_success, none)
            (map (described spare) meta)
            (map json_row_calls rows ++ ((code, []) ∷ later))
          ≡ read_all (some text))
        × (read_array (length meta) (length rows) text ≡ some (map object_of rows, []))
  unfolding read_array rows_text row_text expect
  read_array-fetch_and_build_json spare rows code later names fits short stop = (
    b'[' ∷ (rows_text meta true rows ++ b']' ∷ []),
    fetch_and_build_json_lem spare meta rows code later some_columns names (has_cells rows fits)
        short stop,
    whole rows fits,
  )
    where
      whole :
          (rows : List (List Cell))
          → All IsRow rows
          → read_array (length meta) (length rows) (b'[' ∷ (rows_text meta true rows ++ b']' ∷ []))
            ≡ some (map object_of rows, [])
      whole [] f = refl
      whole (cells ∷ rows) f =
          rw
            (append_assoc (row_text (zip_columns meta cells)) (rows_text meta false rows)
              (b']' ∷ []))
            (read_objects-rows_text (suc (length rows)) cells rows [] (omega arith) f.0 f.1)
