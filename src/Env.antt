-- ===== src/Env.antt =====
-- What surrounds the program and is not under the repository: the PostgreSQL driver, the node behind
-- the JSON-RPC connection, encoding/json, the decimal library, the clock and the context. Everything
-- that can answer differently from one moment to the next takes the number of the interaction, so a
-- theorem over every `Env` covers every behaviour of these parts, failures included.
use hxscanner.Prelude.{ℕ, String, ◌≡◌, Bool, Option, List}
use hxscanner.Prelude.Int.{ℤ}
use hxscanner.Value.{Value, Object}
use hxscanner.Types.{
  HxBlock, HxFullTransactionExtraInfo, HxContractOpReceipt, HxContractOpReceiptEvent,
}

-- A Go `error`, by its text.
abbrev pub Error : Type 0
Error = String

-- The results of a Go function with a last result `err error`, when one of the two counts.
pub data Result {ℓ} (A : Type ℓ) : Type ℓ where
  ok : A → Result A
  err : Error → Result A

pub ok-injective {ℓ} : {A : Type ℓ} (a b : A) → ok a ≡ ok b → a ≡ b
ok-injective a b h = cc

-- `decimal.Decimal`: value * 10 ^ exponent
pub record Decimal : Type 0 where
  pub value : ℤ
  pub exponent : ℤ

-- One entry of the node's answer to `list_assets`.
pub record AssetItem : Type 0 where
  pub asset_id : String
  pub precision : ℕ
  pub symbol : String

-- One entry of the node's answer to `get_addr_balances`; the amount is a `json.Number`.
pub record BalanceItem : Type 0 where
  pub amount : String
  pub asset_id : String

-- The argument of a transfer event; the amount is a uint64.
pub record TransferEventArg : Type 0 where
  pub from_addr : String
  pub to_addr : String
  pub amount : ℕ

pub record Env : Type 0 where
  -- the error of a `Query`, `Prepare`, `Exec` or `Scan`, if it fails
  pub sql_error : ℕ → Option Error
  -- `rows.Next` returns false because the iteration failed
  pub rows_stop : ℕ → Bool
  pub now : ℕ → ℕ
  -- `_ws != nil`, which another goroutine sets to nil
  pub connected : ℕ → Bool
  -- `ctx.Done()` is ready
  pub cancelled : ℕ → Bool
  -- `_client.Call(method, args, &reply)`
  pub call : ℕ → String → List Value → Result Value
  pub marshal : Value → Result String
  -- `none` is a JSON null, which leaves the pointer nil
  pub decode_block : Value → Result (Option HxBlock)
  pub decode_full_txs : Value → Result (List HxFullTransactionExtraInfo)
  pub decode_receipts : Value → Result (List (Option HxContractOpReceipt))
  pub decode_assets : Value → Result (List AssetItem)
  pub decode_balances : Value → Result (List BalanceItem)
  -- into a `map[string]interface{}`, and into a list of such maps, where a null leaves a nil map
  pub decode_map : Value → Result Object
  pub decode_maps : Value → Result (List (Option Object))
  -- the same from a text, with numbers as `json.Number`
  pub unmarshal_object : String → Result Object
  pub unmarshal_events : String → Result (List (Option HxContractOpReceiptEvent))
  pub unmarshal_values : String → Result (List Value)
  pub unmarshal_string : String → Result String
  pub unmarshal_transfer : String → Result TransferEventArg
  -- `time.Parse`
  pub parse_time : String → Result ℕ
  -- `int64(math.Pow10(n))`, a conversion from floating point
  pub pow10 : ℕ → ℤ
  pub decimal_div : Decimal → Decimal → Decimal
  -- `decimal.NewFromString`
  pub parse_decimal : String → Result Decimal
  -- `decimal.Decimal.String`
  pub show_decimal : Decimal → String
