-- ===== src/Packets/Tests.antt =====
-- Examples for the packets of src/tws_meta.cpp.
use twstools.Base.{◌≡◌, refl, true, none, some, List, [], ◌∷◌, ◌++◌, ◌>>=◌}
use twstools.Base.Int.{pos}
use twstools.Base.Text.{Text, bytes, starts_with, strip}
use twstools.Samples.{request_a}
use twstools.Requests.{AccStatusRequest}
use twstools.Packets.Streams.{RowAcc, acc_val, acc_stamp, PacketAccStatus}
use twstools.Packets.{clean, closed, err_none}
use twstools.Packets.History.{RowHist, dflt_row, clear, record_request, append_all}
use twstools.Packets.Laws.{collecting, hist_data_collects}

abbrev row_a : RowHist
row_a = record dflt_row { date = bytes "20120104" }

abbrev row_end : RowHist
row_end = record dflt_row { date = bytes "finished-20120101" }

hist_data_collects_example :
    (record_request (pos 7) request_a (clear (collecting (pos 6) request_a []))
      >>= append_all (pos 7) ((row_a ∷ []) ++ row_end ∷ []))
    ≡ some (record {
      status = record { mode = closed; error = err_none };
      req_id = pos 7;
      request = some request_a;
      rows = row_a ∷ [];
      finish_row = row_end;
    })
unfolding starts_with bytes dflt_row strip
hist_data_collects_example =
    hist_data_collects (pos 7) request_a (row_a ∷ []) row_end (collecting (pos 6) request_a [])
      (refl, tt) refl

abbrev asks : AccStatusRequest
asks = record { subscribe = true; acct_code = bytes "DU1" }

abbrev values : List (RowAcc Text Text)
values = acc_val (bytes "cash") ∷ acc_stamp (bytes "12:00") ∷ []

abbrev fresh_packet : PacketAccStatus Text Text
fresh_packet = record {
  status = record { mode = clean; error = err_none };
  request = none;
  rows = [];
}
