-- ===== src/Tests/Tables.antt =====
-- The theorems on tables, rows and names, at the sample node's transfer.
use hxscanner.Prelude.{ℕ, ◌≡◌, ◌↔◌, refl, String, true, false, some, List, [], ◌∷◌, All, lookup}
use hxscanner.Prelude.Int.{pos}
use hxscanner.Value.{int, str}
use hxscanner.Db.Schema.{PgTableSchema, PgTableSchemaColumn, init_db, has_column}
use hxscanner.Db.OperationIds.{get_base_operation_id-injective}
use hxscanner.Db.Dynamic.{
  Prepared, bound_row, is_operation, prepare_values, no_relation, find_unquoted, find_quoted,
  sql_value, bytes_text,
}
use hxscanner.Db.TableIndex.{with_table}
use hxscanner.Scanner.TableIndex.{ensure_table-named}
use hxscanner.Exec.{fatal}
use hxscanner.Node.{is_contract_op_type}
use hxscanner.Node.Names.{
  get_operation_name_by_operation_type, get_operation_table_name_by_operation_name,
}
use hxscanner.Node.TableNames.{
  contract_names, get_operation_table_name-injective, is_contract_op_type-names,
}
use hxscanner.Plugins.Utils.{is_string_in_array, is_all_in_array}
use hxscanner.Plugins.Arrays.{IsIn, is_all_in_array-All}
use hxscanner.Scanner.Operation.{enrich, columns_of, ensure_table}
use hxscanner.Scanner.Enrich.{added_keys, given_or_empty, lookup-enrich, is_operation-row}
use hxscanner.Tests.Sample.{node, empty_world, block_with, transfer_json}

abbrev text_column : String → PgTableSchemaColumn
text_column name = record { column_name = name; column_type = "text" }

abbrev columns : List PgTableSchemaColumn
columns = text_column "trxid" ∷ text_column "index_in_tx" ∷ text_column "memo" ∷ []

abbrev schema : PgTableSchema
schema = record { columns = columns }

get_base_operation_id_example : ◌≡◌ {A = ℕ} 12 12 × ◌≡◌ {A = String} "a@1" "a@1" × ◌≡◌ {A = ℕ} 3 3
get_base_operation_id_example = get_base_operation_id-injective 12 12 3 3 "a@1" "a@1" refl

enrich_example :
    ((k : String)
      → is_string_in_array k added_keys ≡ false
      → lookup k (enrich (block_with []) "t1" 0 transfer_json) ≡ lookup k transfer_json)
    × (lookup "trxid" (enrich (block_with []) "t1" 0 transfer_json) ≡ some (str "t1"))
    × (lookup "index_in_tx" (enrich (block_with []) "t1" 0 transfer_json) ≡ some (int (pos 0)))
    × (lookup "block_num" (enrich (block_with []) "t1" 0 transfer_json) ≡ some (int (pos 0)))
    × (lookup "memo" (enrich (block_with []) "t1" 0 transfer_json)
        ≡ given_or_empty (lookup "memo" transfer_json))
    × (lookup "guarantee_id" (enrich (block_with []) "t1" 0 transfer_json)
        ≡ given_or_empty (lookup "guarantee_id" transfer_json))
enrich_example = lookup-enrich (block_with []) "t1" 0 transfer_json

abbrev prepared : Prepared
prepared = record {
  names = "trxid" ∷ "index_in_tx" ∷ "memo" ∷ [];
  placeholders = 1 ∷ 2 ∷ 3 ∷ [];
  args = str "t1" ∷ int (pos 0) ∷ str "" ∷ [];
}

is_operation_example :
    (is_operation "t1" 0 (bound_row prepared.args prepared.names prepared.placeholders) ≡ true)
    ↔ (◌≡◌ {A = String} "t1" "t1" × ◌≡◌ {A = ℕ} 0 0)
unfolding has_column prepare_values enrich sql_value bytes_text
is_operation_example =
    is_operation-row node schema (block_with []) "t1" 0 transfer_json prepared refl refl refl "t1" 0

abbrev guard_table : String
guard_table = "tbl_add_whiteOperation_list_operation"

ensure_table_example :
    let made =
      with_table guard_table (columns_of (enrich (block_with []) "t1" 0 transfer_json)) init_db in
    let r =
      ensure_table node guard_table (enrich (block_with []) "t1" 0 transfer_json) empty_world in
    (r.0 ≡ fatal no_relation) × (r.1.db ≡ made)
unfolding get_operation_name_by_operation_type get_operation_table_name_by_operation_name
    find_unquoted find_quoted is_string_in_array
ensure_table_example =
    ensure_table-named node (pos 118) "add_whiteOperation_list_operation" (block_with []) "t1" 0
      transfer_json empty_world (λ n. refl) (λ n. refl) refl refl refl

table_name_example : pos 1 ≡ pos 1
unfolding get_operation_name_by_operation_type
table_name_example =
    get_operation_table_name-injective (pos 1) (pos 1) "limit_order_create_operation"
      "limit_order_create_operation" refl refl refl

contract_op_example :
    is_contract_op_type (pos 79) ≡ is_string_in_array "contract_invoke_operation" contract_names
unfolding get_operation_name_by_operation_type
contract_op_example = is_contract_op_type-names (pos 79) "contract_invoke_operation" refl

arrays_example :
    (is_all_in_array ("a" ∷ []) ("b" ∷ "a" ∷ []) ≡ true)
    ↔ All (λ a. IsIn a ("b" ∷ "a" ∷ [])) ("a" ∷ [])
arrays_example = is_all_in_array-All ("a" ∷ []) ("b" ∷ "a" ∷ [])
