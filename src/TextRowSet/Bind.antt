-- ===== src/TextRowSet/Bind.antt =====
-- A `TextRowSet` as the parameters of a statement: `CData` and `HasDataType` of its columns, and
-- `ParameterRefCollection` of buffers/columnar.rs.
use odbc_api.Common.{ok, ◌>>=◌}
use odbc_api.Common.Panics.{Run}
use odbc_api.AnyColumnBuffer.Binding.{CDataType}
use odbc_api.TextColumn
use odbc_api.TextColumn.{Width, narrow, wide, TextColumn}
use odbc_api.TextRowSet.{TextRowSet}
use odbc_api.Statement.{Driver}
use odbc_api.Binding.{Parameter, BindApi, bind_columns}
use odbc_api.Prepared.{Parameters}

abbrev pub text_c_type : Width → CDataType
text_c_type narrow = CDataType.char
text_c_type wide = CDataType.w_char

abbrev pub text_parameter : Width → TextColumn → Run Parameter
text_parameter w col = do
  buffer_length ← TextColumn.buffer_length w col
  ok (record {
    cdata = record {
      cdata_type = text_c_type w;
      values = col.values;
      indicators = col.indicators;
      buffer_length = buffer_length;
    };
    parameter_type = TextColumn.data_type w col;
  })

abbrev pub text_parameters : {S : Type 0} → Driver S → BindApi S → TextRowSet → Parameters S
text_parameters d api buffer = record {
  parameter_set_size = buffer.num_rows;
  bind_parameters_to = bind_columns d api (text_parameter narrow) buffer.columns;
}
