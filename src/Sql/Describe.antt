-- ===== src/Sql/Describe.antt =====
-- The names and types of the columns: `get_column_names` of src/sql.cpp and `get_result_metadata` of
-- src/sql.tpp. What SQLDescribeCol returns for each column is an argument.
use apiserver_asymetric_encr.Base.{
  ltb, leb, if◌then◌else◌, length, take, All, take-length_self, take_all, ℕ, ◌<◌, ◌≡◌, refl, ap,
  true, Option, none, some, List, [], ◌∷◌, ◌++◌, map, arith,
}
use apiserver_asymetric_encr.Text.{Bytes}
use apiserver_asymetric_encr.Sql.Fetch.{ReturnCode, sql_success, sql_success_with_info, past_buffer}
use apiserver_asymetric_encr.Sql.Results.{check_odbc_error, Read, read_all, raised, stuck}
use apiserver_asymetric_encr.Sql.Json.{ColumnType, ColumnMeta}

-- One call of SQLDescribeCol: the buffer of 256 bytes as it leaves it, and what it writes besides.
pub record Describe : Type 0 where
  pub code : ReturnCode
  pub diagnosis : Option Bytes
  pub buffer : Bytes
  pub name_len : ℕ
  pub data_type : ColumnType

-- The text from the start of the buffer; a length past its end reads behind the array.
unfoldable pub column_name : Describe → Read Bytes
column_name d = elim (check_odbc_error d.code d.diagnosis) [
  | some e ↦ raised e
  | none ↦ if leb d.name_len 256 then read_all (take d.name_len d.buffer) else stuck past_buffer
]

unfoldable pub get_column_names : List Describe → Read (List Bytes)
get_column_names [] = read_all []
get_column_names (d ∷ rest) = elim (column_name d) [
  | raised e ↦ raised e
  | stuck f ↦ stuck f
  | read_all name ↦ elim (get_column_names rest) [
    | raised e ↦ raised e
    | stuck f ↦ stuck f
    | read_all names ↦ read_all (name ∷ names)
  ]
]

unfoldable pub get_result_metadata : List Describe → Read (List ColumnMeta)
get_result_metadata [] = read_all []
get_result_metadata (d ∷ rest) = elim (column_name d) [
  | raised e ↦ raised e
  | stuck f ↦ stuck f
  | read_all name ↦ elim (get_result_metadata rest) [
    | raised e ↦ raised e
    | stuck f ↦ stuck f
    | read_all meta ↦ read_all (record { name = name; type_ = d.data_type } ∷ meta)
  ]
]

-- What the ODBC reference says: the name with a zero byte behind it, cut where it does not fit, and
-- the length of the whole name. What the call leaves of the buffer is `rest`.
abbrev pub described : Bytes → ColumnMeta → Describe
described rest meta = record {
  code = if ltb (length meta.name) 256 then sql_success else sql_success_with_info;
  diagnosis = none;
  buffer = take 255 meta.name ++ 0 ∷ rest;
  name_len = length meta.name;
  data_type = meta.type_;
}

-- Column names that fit are read as they are; one longer than the buffer is read past its end.
short_name :
    (rest : Bytes) (meta : ColumnMeta)
    → length meta.name < 256
    → column_name (described rest meta) ≡ read_all meta.name
unfolding column_name check_odbc_error
short_name rest meta h =
    let fits : leb (length meta.name) 256 ≡ true = ground arith in
    let known : ltb (length meta.name) 256 ≡ true = ground arith in
    rw (known, column_name)
      (rw fits (
        ap read_all
          (rw (take_all meta.name 255 (omega arith)) (take-length_self meta.name (0 ∷ rest)))))

pub get_result_metadata-described :
    (rest : Bytes) (metas : List ColumnMeta)
    → All (λ meta. length meta.name < 256) metas
    → get_result_metadata (map (described rest) metas) ≡ read_all metas
unfolding get_result_metadata
get_result_metadata-described rest [] h = refl
get_result_metadata-described rest (m ∷ metas) (h, hs) =
    rw (short_name rest m h, get_result_metadata)
      (rw (get_result_metadata-described rest metas hs) refl)
