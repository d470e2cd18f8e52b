-- ===== src/Tests/Runs.antt =====
-- Processes that run over the sample node's blocks, once and again.
use hxscanner.Prelude.{◌≡◌, refl, [], ◌∷◌}
use hxscanner.Prelude.Int.{negsuc}
use hxscanner.Exec.{done}
use hxscanner.Scanner.Block.{running}
use hxscanner.Scanner.Registered.{plugins}
use hxscanner.Tests.Sample.{node, caller, empty_world}
use hxscanner.Exec.{
  pure, fail, exit, panic, lift, attempt, or_exit, ◌>>=◌, gets, write, put_schema, ask, sql, now,
  connected, call, query_row, exec, exec_checked,
}
use hxscanner.Scanner.Block.{
  run, scan_blocks_from, scan_round, process_block, checkpoint, scan_tx, until_break,
  store_receipts, store_receipt, store_transaction, store_block, fix_previous_block,
}
use hxscanner.Db.Configs.{
  get_last_scanned_block_number, get_scan_config_or, find_scan_config,
  update_last_scanned_block_number, store_checkpoint, save_config, update_config,
}
use hxscanner.Node.{
  get_block, complete_block, get_block_reply, number_transactions, fill_transactions,
  check_transaction_has_contract_op, is_contract_item, is_contract_op_type, list_assets,
  get_address_balances, collect_balances,
}
use hxscanner.Db.Blocks.{
  find_block, save_block, update_block_hash, find_transaction, save_transaction, insert_transaction,
  first_operation_type,
}
use hxscanner.Scanner.Operation.{
  scan_op, decode_op_pair, op_type_number, enrich, operation_addr, cached_get_table_schema,
  ensure_table, store_operation, store_base_operation, apply_plugins_to_operation,
}
use hxscanner.Node.Names.{
  get_operation_name_by_operation_type, get_operation_table_name_by_operation_name,
}
use hxscanner.Db.Dynamic.{
  check_table_exist, found_row, create_table, create_index, refers, find_unquoted, find_quoted,
  check_operation_exist, exists_in, get_table_schema, scan_columns, insert_dynamic_operation,
  prepare_values, sql_value, bytes_text,
}
use hxscanner.Db.Schema.{has_column}
use hxscanner.Db.Operations.{get_base_operation_id, find_base_operation, save_base_operation}
use hxscanner.Strconv.{itoa, format_nat, format_digits, parse_int, parse_nat, parse_digits}
use hxscanner.Plugins.Transfer.{transfer_plugin, apply_transfer, update_both}
use hxscanner.Plugins.Account.{account_register_plugin, apply_account_register, register}
use hxscanner.Plugins.AssetChange.{
  asset_maybe_change_plugin, apply_asset_maybe_change, update_changed, changed_address,
  changed_asset, first_string,
}
use hxscanner.Plugins.Utils.{map_get_string}
use hxscanner.Plugins.Balance.{
  find_asset_from_cache_or_db, asset_or_node, save_assets, store_balance, update_address_balance,
}
use hxscanner.Db.Assets.{
  find_asset, save_asset, save_address_balance, insert_address_balance,
  find_address_balance_by_owner_addr_and_asset_id, update_address_balance as store_address_balance,
}
use hxscanner.Scanner.Lives.{lives}
use hxscanner.Plugins.TokenEvents.{
  token_contract_invoke_plugin, apply_token_contract_invoke, process_receipt,
}
use hxscanner.Plugins.TokenCreate.{token_contract_create_plugin, apply_token_contract_create}

-- Two rounds end before block 3. After a process that stopped behind block 2, the next one begins again at block 1,
-- since no checkpoint was due, and it stores nothing twice.
pub runs_end :
    ((scan_blocks_from node (plugins node caller) 2 1 empty_world).0 ≡ done (running 3))
    × ((run node
          (plugins node caller)
          1
          (negsuc 0)
          (lives node (plugins node caller) (2 ∷ []) empty_world)).0
        ≡ done (running 2))
unfolding token_contract_invoke_plugin apply_token_contract_invoke process_receipt
    token_contract_create_plugin apply_token_contract_create pure fail exit panic lift attempt
    or_exit ◌>>=◌ gets write put_schema ask sql now connected call query_row exec exec_checked run
    scan_blocks_from scan_round process_block checkpoint scan_tx until_break store_receipts
    store_receipt store_transaction store_block fix_previous_block get_last_scanned_block_number
    get_scan_config_or find_scan_config update_last_scanned_block_number store_checkpoint
    save_config update_config get_block complete_block get_block_reply number_transactions
    fill_transactions check_transaction_has_contract_op is_contract_item is_contract_op_type
    find_block save_block update_block_hash find_transaction save_transaction insert_transaction
    first_operation_type scan_op decode_op_pair op_type_number enrich operation_addr
    cached_get_table_schema ensure_table store_operation store_base_operation
    apply_plugins_to_operation get_operation_name_by_operation_type
    get_operation_table_name_by_operation_name check_table_exist found_row create_table create_index
    refers find_unquoted find_quoted check_operation_exist exists_in get_table_schema scan_columns
    insert_dynamic_operation prepare_values sql_value bytes_text has_column get_base_operation_id
    find_base_operation save_base_operation itoa format_nat format_digits parse_int parse_nat
    parse_digits transfer_plugin apply_transfer update_both account_register_plugin
    apply_account_register register asset_maybe_change_plugin apply_asset_maybe_change
    update_changed changed_address changed_asset first_string map_get_string
    find_asset_from_cache_or_db asset_or_node save_assets store_balance list_assets
    get_address_balances collect_balances find_asset save_asset save_address_balance
    insert_address_balance find_address_balance_by_owner_addr_and_asset_id lives
    update_address_balance store_address_balance
runs_end = (refl, refl)
