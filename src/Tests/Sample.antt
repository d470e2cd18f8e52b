-- ===== src/Tests/Sample.antt =====
-- A node that has the blocks 1 and 2, and a database without errors.
use hxscanner.Prelude.{
  ℕ, zero, suc, ◌^◌, ◌==◌, String, true, false, Option, none, some, List, [], ◌∷◌, if◌then◌else◌,
}
use hxscanner.Prelude.Int.{ℤ, pos}
use hxscanner.Strconv.{itoa, parse_int}
use hxscanner.Value.{Value, Object, int, uint64, number, str, null, obj, fields, entries}
use hxscanner.Types.{HxBlock, HxTransaction, HxFullTransactionExtraInfo}
use hxscanner.Env.{Result, ok, err, Decimal, Env}
use hxscanner.Db.Schema.{init_db}
use hxscanner.Exec.{World}

abbrev pub transfer_json : Object
transfer_json =
    ("from_addr", str "HXa")
    ∷ ("to_addr", str "HXb")
    ∷ ("amount", obj (fields (("amount", number "7") ∷ ("asset_id", str "1.3.0") ∷ [])))
    ∷ []

abbrev pub transfer : HxTransaction
transfer = record {
  block_num = 0;
  trxid = "";
  contract_id = "";
  index_in_block = 0;
  expiration = "2019-01-01T00:00:00";
  extensions = [];
  operation_results = [];
  operations = (number "0" ∷ obj (fields transfer_json) ∷ []) ∷ [];
  ref_block_num = 0;
  ref_block_prefix = 0;
  signatures = [];
}

abbrev pub block_with : List HxTransaction → HxBlock
block_with txs = record {
  block_number = 0;
  extensions = [];
  miner = "1.6.1";
  miner_signature = "";
  next_secret_hash = "";
  previous = "00";
  previous_secret = "";
  timestamp = "2019-01-01T00:00:00";
  transaction_merkle_root = "";
  transactions = txs;
  transaction_ids = [];
  trxfee = 0;
}

abbrev pub answer : ℕ → String → List Value → Result Value
answer tick method (int (pos n) ∷ []) =
    if method == "get_block"
    then elim n [
      | zero ↦ err "error <nil>"
      | suc m ↦ elim m [
        | zero ↦ ok (uint64 1)
        | suc k ↦ elim k [ zero ↦ ok (uint64 2) | suc _ ↦ err "error <nil>" ]
      ]
    ]
    else ok (uint64 n)
answer tick method args = ok null

abbrev pub read_block : Value → Result (Option HxBlock)
read_block (uint64 (suc zero)) = ok (some (block_with (transfer ∷ [])))
read_block v = ok (some (block_with []))

abbrev pub read_full_txs : Value → Result (List HxFullTransactionExtraInfo)
read_full_txs (uint64 (suc zero)) =
    ok (record { block_num = 1; trxid = "t1"; contract_id = "" } ∷ [])
read_full_txs v = ok []

abbrev pub whole : ℤ → Decimal
whole n = record { value = n; exponent = pos 0 }

abbrev pub node : Env
node = record {
  sql_error = λ n. none;
  rows_stop = λ n. false;
  now = λ n. n;
  connected = λ n. true;
  cancelled = λ n. false;
  call = answer;
  marshal = λ v. ok "{}";
  decode_block = read_block;
  decode_full_txs = read_full_txs;
  decode_receipts = λ v. ok [];
  decode_assets = λ v. ok (record { asset_id = "1.3.0"; precision = 5; symbol = "HX" } ∷ []);
  decode_balances = λ v. ok (record { amount = "700"; asset_id = "1.3.0" } ∷ []);
  decode_map = λ v. elim v [
    | obj fs ↦ ok (entries fs)
    | _ ↦ err "json: cannot unmarshal into Go value of type map[string]interface {}"
  ];
  decode_maps = λ v. ok [];
  unmarshal_object = λ s. err "EOF";
  unmarshal_events = λ s. ok [];
  unmarshal_values = λ s. ok [];
  unmarshal_string = λ s. ok s;
  unmarshal_transfer = λ s. ok (record { from_addr = "HXa"; to_addr = "HXb"; amount = 7 });
  parse_time = λ s. ok 0;
  pow10 = λ n. pos (10 ^ n);
  decimal_div = λ a b. a;
  parse_decimal = λ s. elim (parse_int s) [ none ↦ err "decimal" | some n ↦ ok (whole n) ];
  show_decimal = λ d. itoa d.value;
}

abbrev pub caller : String
caller = "HX5jfb"

abbrev pub empty_world : World
empty_world = record { tick = 0; db = init_db; schema_cache = [] }
