-- ===== src/Packets/Lists.antt =====
-- class PacketContractDetails of src/tws_meta.cpp: a request and the rows that answer it. `Req` is the
-- class of the request, `Row` the class ContractDetails of the API.
use twstools.Base.{
  Bool, true, false, Option, none, some, List, [], ◌∷◌, ◌++◌, ◌>>◌, assert, is_none, ◌&&◌,
  if◌then◌else◌,
}
use twstools.Base.Int.{ℤ, negsuc, eqb_ℤ}
use twstools.Packets.{clean, recording, closed, Status, new_status, is_empty, is_recording}

pub record PacketContractDetails (Req Row : Type 0) : Type 0 where
  pub status : Status
  pub req_id : ℤ
  pub request : Option Req
  pub cd_list : List Row

abbrev pub no_rows : {A : Type 0} → List A → Bool
no_rows [] = true
no_rows (x ∷ xs) = false

module _ {Req Row : Type 0} where
  unfoldable pub new_packet : PacketContractDetails Req Row
  new_packet = record { status = new_status; req_id = negsuc 0; request = none; cd_list = [] }

  unfoldable pub record_request :
      ℤ → Req → PacketContractDetails Req Row → Option (PacketContractDetails Req Row)
  record_request id cdr p =
      assert (
        is_empty p.status
        && (eqb_ℤ p.req_id (negsuc 0) && (is_none p.request && no_rows p.cd_list)))
      >> some (record p {
        req_id = id;
        request = some cdr;
        status = record p.status { mode = recording };
      })

  unfoldable pub set_finished :
      PacketContractDetails Req Row → Option (PacketContractDetails Req Row)
  set_finished p =
      assert (is_recording p.status.mode)
      >> some (record p { status = record p.status { mode = closed } })

  -- clear leaves the error as it is.
  unfoldable pub clear : PacketContractDetails Req Row → PacketContractDetails Req Row
  clear p = record {
    status = record p.status { mode = clean };
    req_id = negsuc 0;
    request = none;
    cd_list = [];
  }

  -- The first row brings its reqId with it.
  unfoldable pub append :
      ℤ → Row → PacketContractDetails Req Row → Option (PacketContractDetails Req Row)
  append id c p =
      let own = if no_rows p.cd_list then id else p.req_id in
      assert (eqb_ℤ own id)
      >> (assert (is_recording p.status.mode)
          >> some (record p { req_id = own; cd_list = p.cd_list ++ c ∷ [] }))
