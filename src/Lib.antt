-- ===== src/Lib.antt =====
-- odbc-api: a Rust library over the ODBC C API. This library models the parts that keep state or
-- compute: the buffers that are bound to columns and parameters, the data types, the choice of a
-- buffer, connecting, the execution of prepared statements and of statements with delayed parameters,
-- the retrieval of row sets and of large fields, and the program odbcsv, which inserts CSV files and
-- writes result sets as CSV.
--
-- A program executes a statement (`odbc-api/src/execute.rs`), which binds parameters, calls the driver through
-- the statement handle (`odbc-api/src/handles/statement.rs`), and feeds the driver the batches of its blobs
-- (`odbc-api/src/parameter/blob.rs`). The rows of a result are fetched into column buffers, or one by one through
-- `odbc-api/src/cursor.rs`. Indicators say of each value whether it is NULL, and how long it is.
--
-- Files, by the sources they model (paths from the repository's root):
--   Indicator     odbc-api/src/buffers/indicator.rs: `from_isize`; `into_isize` is `to_isize`
--   TextColumn    odbc-api/src/buffers/text_column.rs: `TextColumn<C>`, for the two widths of `C`
--   Rows          the loop of `resize_max_str`, also of `resize_max_element_length`
--   BinColumn     odbc-api/src/buffers/bin_column.rs
--   ColumnWithIndicator   odbc-api/src/buffers/column_with_indicator.rs
--   VarChar       odbc-api/src/parameter/varchar.rs
--   VarBinary     odbc-api/src/parameter/varbin.rs
--   DataType      odbc-api/src/handles/data_type.rs
--   Description   odbc-api/src/buffers/description.rs
--   Sql           odbc-api/src/handles/sql_result.rs and odbc-api/src/error.rs
--   Statement     odbc-api/src/handles/statement.rs, over a record of the raw functions of the C API
--   Blob          odbc-api/src/parameter/blob.rs: the trait, `BlobSlice` and `BlobRead`
--   Execute       odbc-api/src/execute.rs
--   Cursor        odbc-api/src/cursor.rs: `next_row`, `get_text`, `get_binary`, and row sets (Cursor/RowSet)
--   ColumnarBuffer   odbc-api/src/buffers/columnar.rs: `ColumnarBuffer`, over a record of the trait's functions
--   TextRowSet    odbc-api/src/buffers/columnar.rs: `TextRowSet`
--   AnyColumnBuffer   odbc-api/src/buffers/any_column_buffer.rs
--   Diagnostics   odbc-api/src/handles/diagnostics.rs, odbc-api/src/handles/logging.rs
--   Metadata      odbc-api/src/handles/statement.rs: `describe_col`, `col_name` and the attributes of columns;
--                 odbc-api/src/handles/column_description.rs, odbc-api/src/result_set_metadata.rs
--   Environment   odbc-api/src/environment.rs, odbc-api/src/handles/environment.rs: drivers, data sources,
--                 and connecting (Environment/Connect), with odbc-api/src/driver_complete_option.rs
--   Connection    odbc-api/src/connection.rs and odbc-api/src/handles/connection.rs: `escape_attribute_value`, the calls
--                 (Connection/Calls, Connection/Methods) and the texts of a connection (Connection/Texts)
--   OutputString  odbc-api/src/handles/buffer.rs: `OutputStringBuffer`
--   Binding       odbc-api/src/handles/bind.rs, odbc-api/src/parameter.rs, odbc-api/src/parameter_collection.rs and the functions
--                 of odbc-api/src/handles/statement.rs that bind and describe parameters
--   Prepared      odbc-api/src/prepared.rs, odbc-api/src/preallocated.rs, odbc-api/src/prebound.rs
--   Csv           odbcsv/src/main.rs: `open_connection`, and `insert` and `cursor_to_csv` over records of the
--                 CSV reader and writer
--   Common        what the code takes from the Rust standard library: slices, `Vec`, panics
-- The children of a module prove its theorems; a child Tests applies them.
--
-- A `usize` has 64 bits and its arithmetic wraps round, as in a release build; a `Vec` holds at most
-- `isize::MAX` bytes. Indexing and conversions that panic are computations in `Run`. A buffer is a
-- list, an ODBC pointer a number. Where the code writes through `&mut`, the function returns the new
-- value. The float expression that grows a buffer is a parameter, `Growth`.
--
-- The loops of `get_text` and `get_binary` run on fuel, and so do those of `execute`; to run out of
-- it counts as a panic. So do the recursions of `diagnostics` and `describe_col`, for which two
-- rounds are enough, and the loops of `drivers`, for which one round more than there are drivers is.
-- The loop of `cursor_to_csv` needs no more rounds than one more than there are rows.
-- A buffer of characters carries its capacity, and how an allocator grows it is the parameter
-- `Reserve`. Two rounds are enough for `get_text` where the driver reports lengths, and
-- one more than the bytes of a slice for sending it.
--
-- The driver and the constants of `odbc_sys` are parameters: the records `Driver` and `OdbcSys`.
-- `TextSource` and `Receives` state what ODBC documents of SQLGetData and of SQLPutData, `Reads`
-- what the standard library documents of a buffered reader, `Inserts` what ODBC documents of a
-- statement that is prepared, where its text is that of an INSERT (Binding/Insert reads it) which is
-- executed with arrays of parameters, and `Tells` what it documents of a call that gives a text out.
-- Which texts the driver manager lists for a driver is stated in Environment/Described. `Disconnects` is about open transactions, `Remembers`
-- about what is bound to a statement, and `Delivers` about fetching into bound columns. While a
-- buffer is bound, its memory is given to a fetch, and comes back as the driver leaves it.
--
-- Not modelled: views that write, which hand out pointers; the catalog functions, whose calls only
-- pass names on; conversions into parameters; and what odbcsv does with files and its arguments.
pub mod Common
pub mod Indicator
pub mod Rows
pub mod TextColumn
pub mod DataType
pub mod Description
pub mod Sql
pub mod Statement
pub mod Diagnostics
pub mod Blob
pub mod Metadata
pub mod Execute
pub mod Environment
pub mod Binding
pub mod Prepared
pub mod OutputString
pub mod Connection
pub mod Csv
pub mod Cursor
pub mod BinColumn
pub mod ColumnWithIndicator
pub mod AnyColumnBuffer
pub mod ColumnarBuffer
pub mod TextRowSet
pub mod VarChar
pub mod VarBinary
