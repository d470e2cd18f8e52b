-- ===== src/Types.antt =====
-- src/types: blocks, transactions and contract receipts as the node reports them.
use hxscanner.Prelude.{ℕ, String, Bool, false, Option, List, []}
use hxscanner.Value.{Value}

pub record HxTransaction : Type 0 where
  pub block_num : ℕ
  pub trxid : String
  pub contract_id : String
  pub index_in_block : ℕ
  pub expiration : String
  pub extensions : List Value
  pub operation_results : List Value
  -- every item is [operationTypeInt, operationJson]
  pub operations : List (List Value)
  pub ref_block_num : ℕ
  pub ref_block_prefix : ℕ
  pub signatures : List String

pub record HxFullTransactionExtraInfo : Type 0 where
  pub block_num : ℕ
  pub trxid : String
  pub contract_id : String

pub record HxBlock : Type 0 where
  pub block_number : ℕ
  pub extensions : List Value
  pub miner : String
  pub miner_signature : String
  pub next_secret_hash : String
  pub previous : String
  pub previous_secret : String
  pub timestamp : String
  pub transaction_merkle_root : String
  pub transactions : List HxTransaction
  pub transaction_ids : List String
  pub trxfee : ℕ

pub record HxContractOpReceiptEvent : Type 0 where
  pub block_num : ℕ
  pub caller_addr : String
  pub contract_address : String
  pub event_arg : String
  pub event_name : String
  pub op_num : ℕ
  pub trxid : String

pub record HxContractOpReceipt : Type 0 where
  pub id : String
  pub trxid : String
  pub block_num : ℕ
  pub op_num : ℕ
  pub api_result : String
  -- pointers, and JSON null decodes to nil
  pub events : List (Option HxContractOpReceiptEvent)
  pub exec_succeed : Bool
  pub actual_fee : ℕ
  pub invoker : String
  pub contract_registered : String
  pub contract_withdraw_info : List Value
  pub contract_balance_changes : List Value
  pub deposit_to_address_changes : List Value
  pub deposit_to_contract_changes : List Value
  pub transfer_fees : List Value

-- A receipt is behind a pointer, which the node's reply may leave nil.
pub record HxContractTxReceipt : Type 0 where
  pub op_receipts : List (Option HxContractOpReceipt)
  pub has_failed_contract_operation : Bool

unfoldable pub new_hx_contract_op_receipt : HxContractOpReceipt
new_hx_contract_op_receipt = record {
  id = "";
  trxid = "";
  block_num = 0;
  op_num = 0;
  api_result = "";
  events = [];
  exec_succeed = false;
  actual_fee = 0;
  invoker = "";
  contract_registered = "";
  contract_withdraw_info = [];
  contract_balance_changes = [];
  deposit_to_address_changes = [];
  deposit_to_contract_changes = [];
  transfer_fees = [];
}
