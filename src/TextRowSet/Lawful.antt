-- ===== src/TextRowSet/Lawful.antt =====
-- The text columns of a `TextRowSet` keep the laws of columns: its default is NULL.
use odbc_api.Common.{refl, none, ok}
use odbc_api.Common.Panics.{Run}
use odbc_api.Indicator.{OdbcSys}
use odbc_api.TextColumn.{Cell, narrow, value_at}
use odbc_api.TextColumn.Valid.{IsValid}
use odbc_api.TextColumn.Reset.{fill_null_lem}
use odbc_api.ColumnarBuffer.Laws.{IsLawful}
use odbc_api.TextRowSet.{char_column}

module _ ⦃s : OdbcSys⦄ where
  unfoldable pub char_column-IsLawful : IsLawful char_column (Run Cell)
  char_column-IsLawful = record {
    Valid = IsValid narrow;
    cell = value_at narrow;
    default = λ col. ok none;
    fill = λ col from to v h inside.
        let (col', e, valid, rows, reads) = fill_null_lem v from to h inside in
        (col', e, valid, rows, refl, reads);
  }
