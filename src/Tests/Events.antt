-- ===== src/Tests/Events.antt =====
-- The theorem on the events of a receipt, at two transfer events.
use hxscanner.Types.{HxContractOpReceiptEvent}

abbrev transfer_event : HxContractOpReceiptEvent
transfer_event = record {
  block_num = 1;
  caller_addr = "HXa";
  contract_address = "HXc";
  event_arg = "{}";
  event_name = "Transfer";
  op_num = 0;
  trxid = "t1";
}
