-- ===== src/Metadata/Tests.antt =====
-- Result sets of one and two columns: the theorems at inputs that meet their hypotheses, and runs.
use odbc_api.Common.{
  ℕ, ◌*◌, ◌/◌, ◌≡◌, refl, List, [], ◌∷◌, none, pos, ok, arith, ltb, length, false, if◌then◌else◌,
  Reserve, ◌==◌,
}
use odbc_api.DataType.{SqlDataType, DataType}
use odbc_api.DataType as SqlTypes
use odbc_api.Sql.{SqlReturn, SqlResult, Result, is_err}
use odbc_api.Statement.{Driver}
use odbc_api.Diagnostics.Text.{written}
use odbc_api.Metadata.{
  MetadataApi, Desc, SqlNullability, Nullability, new, ColumnDescription, empty_description,
  describe_col,
}
use odbc_api.Metadata.Describe.{HasColumn, IsDescribed, describe_col_lem}
use odbc_api.Metadata.ColName.{HasName}
use odbc_api.Metadata.DataTypes.{Attributes, HasAttributes, col_data_type-new}
use odbc_api.Metadata.ResultSet.{col_data_type}
use odbc_api.Metadata.Names.{ColumnNamesIt, column_names_lem, collect}
use odbc_api.Metadata.Names

instance abbrev exact : Reserve
exact = record { capacity_for = λ n. n; le_capacity_for = λ n. omega arith }

abbrev id_text : List ℕ
id_text = 105 ∷ 100 ∷ []

abbrev name_text : List ℕ
name_text = 110 ∷ 97 ∷ 109 ∷ 101 ∷ []

-- The name of the first column, and of the others
abbrev text_of : ℕ → List ℕ
text_of column_number = if column_number == 1 then id_text else name_text

-- A result set of two NUMERIC columns, without a state of its own. The code of the type is 2.
abbrev api : MetadataApi (Unit {0})
api = record {
  sql_describe_col = λ column_number buffer len s. record {
    ret =
        if ltb (length (text_of column_number)) len
        then SqlReturn.success
        else SqlReturn.success_with_info;
    name = written len (text_of column_number) buffer;
    name_length = pos (length (text_of column_number));
    data_type = SqlDataType.numeric;
    column_size = 10;
    decimal_digits = pos 2;
    nullable = SqlNullability.nullable;
  };
  sql_col_attribute_name = λ column_number buffer len s. (
    (if ltb (length (text_of column_number)) (len / 2)
        then SqlReturn.success
        else SqlReturn.success_with_info),
    written (len / 2) (text_of column_number) buffer,
    length (text_of column_number) * 2,
  );
  sql_col_attribute = λ desc column_number s. elim desc [
    | Desc.unsigned ↦ (SqlReturn.success, pos 0)
    | Desc.type ↦ (SqlReturn.success, pos 2)
    | Desc.concise_type ↦ (SqlReturn.success, pos 2)
    | Desc.octet_length ↦ (SqlReturn.success, pos 12)
    | Desc.display_size ↦ (SqlReturn.success, pos 12)
    | Desc.precision ↦ (SqlReturn.success, pos 10)
    | Desc.scale ↦ (SqlReturn.success, pos 2)
  ];
  sql_data_type = λ code. SqlDataType.numeric;
}

abbrev driver : Driver (Unit {0})
driver = record {
  sql_exec_direct = λ text s. (SqlReturn.success, s);
  sql_execute = λ s. (SqlReturn.success, s);
  sql_param_data = λ s. (SqlReturn.success, 0, s);
  sql_put_data = λ bytes s. (SqlReturn.success, s);
  sql_num_result_cols = λ s. (SqlReturn.success, pos 2);
  sql_set_stmt_attr = λ attribute value s. (SqlReturn.success, s);
  sql_free_stmt = λ option s. (SqlReturn.success, s);
  sql_close_cursor = λ s. (SqlReturn.success, s);
  sql_fetch = λ s. (SqlReturn.no_data, s);
  sql_get_data = λ col target s. (SqlReturn.success, target, pos 0, s);
  first_record = λ s. none;
}

column : HasColumn api tt 2 name_text SqlDataType.numeric 10 (pos 2) SqlNullability.nullable
column = record { answers = λ buffer len h. refl }

known : new SqlNullability.nullable ≡ ok Nullability.nullable
unfolding new
known = refl

describe_col_lem_example :
    (res : SqlResult (Unit {0})) × (d' : ColumnDescription) × (describe_col api 2 2
        empty_description tt
      ≡ ok (res, d'))
    × (is_err res ≡ false)
    × IsDescribed api tt 2 column known (omega arith) d'
describe_col_lem_example = describe_col_lem api tt 2 column known (omega arith) 0 empty_description

named : (column_number : ℕ) → HasName api tt column_number (text_of column_number)
named column_number = record {
  answers = λ buffer len h. let half : len * 2 / 2 ≡ len = omega arith in rw half;
}

abbrev attributes : Attributes
attributes = record { octet_length = 12; display_size = 12; precision = 10; scale = pos 2 }

numeric : HasAttributes api tt 1 SqlDataType.numeric attributes
numeric = record {
  code = pos 2;
  code_fits = refl;
  code_kind = refl;
  concise_type = refl;
  octet_length = refl;
  display_size = refl;
  precision = refl;
  scale = refl;
  precision_fits = omega arith;
  scale_fits = refl;
}

col_data_type-new_example :
    col_data_type driver api 0 1 tt
    ≡ ok (Result.done (SqlTypes.new SqlDataType.numeric 10 (pos 2)), tt)
col_data_type-new_example =
    col_data_type-new driver api tt 0 1 attributes SqlDataType.numeric numeric tt

column_names_lem_example :
    (it : ColumnNamesIt) × (Names.new driver api (List ℕ) (λ name. name) tt
      ≡ ok (Result.done it, tt))
    × (collect driver api (List ℕ) (λ name. name) 3 it tt
        ≡ ok (Result.done id_text ∷ Result.done name_text ∷ []))
column_names_lem_example =
    column_names_lem driver api (List ℕ) (λ name. name) tt (id_text ∷ name_text ∷ [])
      (record { frugal = λ n h. h }) refl (named 1, omega arith, (named 2, omega arith, tt))
