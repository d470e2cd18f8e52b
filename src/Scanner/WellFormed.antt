-- ===== src/Scanner/WellFormed.antt =====
-- Well-formed transactions, as the scanner expects them: each operation is a pair of a number that is a known
-- type, and an object.
use hxscanner.Prelude.{ℕ, ◌≡◌, String, true, Option, some, List, [], ◌∷◌, All}
use hxscanner.Prelude.Int.{ℤ}
use hxscanner.Strconv.{parse_int}
use hxscanner.Value.{Value, Object, number, str, as_object}
use hxscanner.Types.{HxTransaction, HxContractOpReceipt}
use hxscanner.Env.{ok, Env}
use hxscanner.Node.{check_transaction_has_contract_op}
use hxscanner.Node.Names.{get_operation_name_by_operation_type}

pub record GoodPair (pair : List Value) : Type 0 where
  pub digits : String
  pub json : Value
  pub is_pair : number digits ∷ json ∷ [] ≡ pair
  pub op_type : ℤ
  pub parsed : parse_int digits ≡ some op_type
  pub object : Object
  pub is_object : as_object json ≡ some object
  pub name : String
  pub named : get_operation_name_by_operation_type op_type ≡ ok name

-- The node has the receipts of the transaction.
pub record Answered (E : Env) (trxid : String) : Type 0 where
  pub reply : Value
  pub called : (t : ℕ) → E.call t "get_contract_invoke_object" (str trxid ∷ []) ≡ ok reply
  pub receipts : List (Option HxContractOpReceipt)
  pub decoded : E.decode_receipts reply ≡ ok receipts

pub record GoodTransaction (E : Env) (tx : HxTransaction) : Type 0 where
  pub pairs : All GoodPair tx.operations
  pub answered : check_transaction_has_contract_op tx ≡ true → Answered E tx.trxid
