-- ===== src/Db/Dynamic.antt =====
-- The operation tables that the scanner makes (src/db/daos.go). A name that a statement gives without
-- quotes is an identifier of SQL: letters, digits, `_` and `$`, read in lower case. A name in quotes is
-- taken as it is written, and so is one that is a parameter.
use hxscanner.Prelude.{
  ℕ, ◌+◌, ◌-◌, String, code, Bool, true, false, ◌&&◌, ◌||◌, Option, none, some, List, [], ◌∷◌, ◌++◌,
  ◌==◌, eqb, leb, not, find?, lookup, length, get_elem?, if◌then◌else◌,
}
use hxscanner.Prelude.Int.{ℤ, pos, int_eqb}
use hxscanner.Value.{Value, Object, null, number, int, int64, uint32, uint64, str}
use hxscanner.Env.{Error, Result, ok, err, Env}
use hxscanner.Db.Table.{unless_found}
use hxscanner.Db.Schema.{Db, OpTable, PgTableSchema, PgTableSchemaColumn, has_column}
use hxscanner.Exec.{M, pure, fail, ◌>>=◌, ◌>>◌, lift, ask, gets, sql, exec_checked, delivered}

-- A letter, a digit, `_` or `$`.
abbrev is_ident_code : ℕ → Bool
is_ident_code c =
    leb b'a' c && leb c b'z'
    || leb b'A' c && leb c b'Z'
    || leb b'0' c && leb c b'9'
    || eqb c b'_'
    || eqb c b'$'

abbrev fold_code : ℕ → ℕ
fold_code c = if leb b'A' c && leb c b'Z' then c + 32 else c

-- The identifier, written without quotes, names this table.
unfoldable pub refers : String → String → Bool
refers String.[] String.[] = true
refers String.[] (String.◌∷◌ d t) = false
refers (String.◌∷◌ c s) String.[] = false
refers (String.◌∷◌ c s) (String.◌∷◌ d t) =
    is_ident_code (code c) && eqb (fold_code (code c)) (code d) && refers s t

unfoldable pub find_unquoted : String → Db → Option OpTable
find_unquoted ident d = find? (λ t. refers ident t.name) d.op_tables

unfoldable pub find_quoted : String → Db → Option OpTable
find_quoted name d = find? (λ t. t.name == name) d.op_tables

-- `where trxid=$1 and index_in_tx=$2`
abbrev is_text : String → Option Value → Bool
is_text s (some (str t)) = t == s
is_text s _ = false

abbrev is_int : ℤ → Option Value → Bool
is_int n (some (int m)) = int_eqb m n
is_int n _ = false

abbrev pub is_operation : String → ℕ → Object → Bool
is_operation trxid index_in_tx row =
    is_text trxid (lookup "trxid" row) && is_int (pos index_in_tx) (lookup "index_in_tx" row)

abbrev pub no_relation : Error
no_relation = "relation does not exist"

-- A statement about a relation, which the server refuses if there is none.
abbrev pub in_relation : Option OpTable → (OpTable → Result Db) → Result Db
in_relation none k = err no_relation
in_relation (some t) k = k t

-- CREATE TABLE "name" (columns)
abbrev pub add_table : String → List PgTableSchemaColumn → Db → Result Db
add_table name columns d = unless_found (find_quoted name d) "relation already exists" (record d {
  op_tables =
      d.op_tables
      ++ record {
        name = name;
        schema = record { columns = columns };
        indexed = false;
        op_rows = [];
      }
        ∷ [];
})

abbrev pub no_column : Error
no_column = "column does not exist"

-- The columns trxid and index_in_tx, which the index and the test for a stored operation name.
abbrev pub has_place : PgTableSchema → Bool
has_place schema = has_column schema "trxid" && has_column schema "index_in_tx"

-- The table that the identifier names has its index.
abbrev pub mark_indexed : String → List OpTable → List OpTable
mark_indexed ident [] = []
mark_indexed ident (t ∷ ts) =
    (if refers ident t.name then record t { indexed = true } else t) ∷ mark_indexed ident ts

-- CREATE INDEX name_idx ON name(trxid, index_in_tx): the columns must be there, and the index must not.
abbrev pub add_index : String → Db → Result Db
add_index name d = in_relation (find_unquoted name d) λ t.
    if not (has_place t.schema)
    then err no_column
    else if t.indexed
    then err "relation already exists"
    else ok (record d { op_tables = mark_indexed name d.op_tables })

abbrev pub append_row : String → Object → List OpTable → List OpTable
append_row ident row [] = []
append_row ident row (t ∷ ts) =
    (if refers ident t.name then record t { op_rows = t.op_rows ++ row ∷ [] } else t)
    ∷ append_row ident row ts

abbrev pub all_columns : PgTableSchema → Object → Bool
all_columns schema [] = true
all_columns schema ((name, v) ∷ row) = has_column schema name && all_columns schema row

-- INSERT INTO public.name (columns) VALUES (values)
abbrev pub add_op_row : String → Object → Db → Result Db
add_op_row ident row d = in_relation (find_unquoted ident d) λ t.
    if all_columns t.schema row
    then ok (record d { op_tables = append_row ident row d.op_tables })
    else err "column of relation does not exist"

-- The columns, the numbers of their placeholders `$n`, and the arguments.
pub record Prepared : Type 0 where
  pub names : List String
  pub placeholders : List ℕ
  pub args : List Value

abbrev pub no_values : Prepared
no_values = record { names = []; placeholders = []; args = [] }

-- `$k` is the argument with number k, counted from 1.
abbrev argument : Option Value → Value
argument none = null
argument (some v) = v

-- The row that `(names) VALUES (placeholders)` stands for.
abbrev pub bound_row : List Value → List String → List ℕ → Object
bound_row args [] ks = []
bound_row args (name ∷ names) [] = []
bound_row args (name ∷ names) (k ∷ ks) =
    (name, argument (get_elem? args (k - 1))) ∷ bound_row args names ks

module _ (E : Env) where
  -- `if rows.Next()`
  unfoldable pub found_row : {A : Type 0} → Option A → M Bool
  found_row none = pure false
  found_row (some _) = pure true

  unfoldable pub exists_in : String → ℕ → Bool → Option OpTable → M Bool
  unfolding found_row
  exists_in trxid index_in_tx stop none = fail no_relation
  exists_in trxid index_in_tx stop (some t) =
      if has_place t.schema
      then found_row (delivered E stop (find? (is_operation trxid index_in_tx) t.op_rows))
      else fail no_column

  unfoldable pub check_operation_exist : String → String → ℕ → M Bool
  unfolding exists_in
  check_operation_exist table_name trxid index_in_tx = do
    sql E
    table ← gets (λ w. find_unquoted table_name w.db)
    stop ← ask E.rows_stop
    exists_in trxid index_in_tx stop table

  unfoldable pub check_table_exist : String → M Bool
  unfolding found_row
  check_table_exist table_name = do
    sql E
    stop ← ask E.rows_stop
    table ← gets (λ w. find_quoted table_name w.db)
    found_row (delivered E stop table)

  -- `for rows.Next() { rows.Scan(…) }; err = rows.Err()`
  unfoldable pub scan_columns : List PgTableSchemaColumn → M (List PgTableSchemaColumn)
  scan_columns [] = do
    stop ← ask E.rows_stop
    if stop then fail "rows iteration failed" else pure []
  scan_columns (col ∷ cols) = do
    stop ← ask E.rows_stop
    if stop
        then fail "rows iteration failed"
        else do sql E; rest ← scan_columns cols; pure (col ∷ rest)

  abbrev columns_of : Option OpTable → List PgTableSchemaColumn
  columns_of none = []
  columns_of (some t) = t.schema.columns

  unfoldable pub get_table_schema : String → M PgTableSchema
  unfolding scan_columns
  get_table_schema table_name = do
    sql E
    table ← gets (λ w. find_quoted table_name w.db)
    columns ← scan_columns (columns_of table)
    pure (record { columns = columns })

  unfoldable pub create_table : String → List PgTableSchemaColumn → M (Unit {0})
  create_table table_name column_definitions =
      exec_checked E (add_table table_name column_definitions)

  unfoldable pub create_index : String → M (Unit {0})
  create_index table_name = exec_checked E (add_index table_name)

  unfoldable pub bytes_text : Result String → Result Value
  bytes_text (ok s) = ok (str s)
  bytes_text (err e) = err e

  -- What is bound to the column of an operation: integers, texts and numbers as they are, and
  -- anything else as its JSON text.
  unfoldable pub sql_value : Value → Result Value
  unfolding bytes_text
  sql_value (int n) = ok (int n)
  sql_value (uint32 n) = ok (uint32 n)
  sql_value (int64 n) = ok (int64 n)
  sql_value (uint64 n) = ok (uint64 n)
  sql_value (str s) = ok (str s)
  sql_value (number n) = ok (number n)
  sql_value v = bytes_text (E.marshal v)

  -- The loop over the operation's keys; `len(prepareValueSqls) + 1` numbers a placeholder.
  unfoldable pub prepare_values : PgTableSchema → Object → Prepared → Result Prepared
  prepare_values table_schema [] p = ok p
  prepare_values table_schema ((op_key, op_col_val) ∷ op_json) p =
      elim (has_column table_schema op_key) [
        | false ↦ prepare_values table_schema op_json p
        | true ↦ elim (sql_value op_col_val) [
          | err e ↦ err e
          | ok v ↦ prepare_values table_schema op_json (record {
            names = p.names ++ op_key ∷ [];
            placeholders = p.placeholders ++ (length p.placeholders + 1) ∷ [];
            args = p.args ++ v ∷ [];
          })
        ]
      ]

  unfoldable pub insert_dynamic_operation : String → PgTableSchema → Object → M (Unit {0})
  unfolding prepare_values
  insert_dynamic_operation table_name table_schema op_json = do
    p ← lift (prepare_values table_schema op_json no_values)
    exec_checked E (add_op_row table_name (bound_row p.args p.names p.placeholders))
