-- ===== src/Samples.antt =====
-- A contract and two requests for the examples of the other modules.
use twstools.Base.{false, []}
use twstools.Base.Int.{pos}
use twstools.Base.Text.{bytes}
use twstools.Requests.{Contract, HistRequest}

abbrev pub contract_a : Contract
contract_a = record {
  con_id = pos 0;
  symbol = bytes "ESTX50";
  sec_type = bytes "FUT";
  expiry = [];
  exchange = bytes "DTB";
  currency = bytes "EUR";
  multiplier = [];
  local_symbol = [];
  include_expired = false;
}

abbrev pub request_a : HistRequest
request_a = record {
  ib_contract = contract_a;
  end_date_time = [];
  duration_str = bytes "1 W";
  bar_size_setting = bytes "1 day";
  what_to_show = bytes "BID";
  use_rth = pos 0;
  format_date = pos 1;
}

abbrev pub contract_b : Contract
contract_b = record contract_a { symbol = bytes "IBM"; exchange = bytes "NOWHERE" }

abbrev pub request_b : HistRequest
request_b = record request_a { ib_contract = contract_b }
