-- ===== src/Packets/History.antt =====
-- class PacketHistData of src/tws_meta.cpp: a historical request and its rows.
use twstools.Base.{
  Bool, false, Option, none, some, List, [], ◌∷◌, ◌++◌, ◌>>=◌, ◌>>◌, assert, is_none, ◌&&◌,
  if◌then◌else◌,
}
use twstools.Base.Int.{ℤ, negsuc, eqb_ℤ}
use twstools.Base.Text.{Text, bytes, starts_with}
use twstools.Requests.{Double, HistRequest}
use twstools.Packets.{clean, recording, closed, err_none, Status, is_clean, is_recording, no_error}

pub record RowHist : Type 0 where
  pub date : Text
  pub open_price : Double
  pub high : Double
  pub low : Double
  pub close : Double
  pub volume : ℤ
  pub count : ℤ
  pub wap : Double
  pub has_gaps : Bool

-- The bits of -1.0.
abbrev minus_one : Double
minus_one = 13830554455654793216

-- dflt_RowHist
unfoldable pub dflt_row : RowHist
dflt_row = record {
  date = [];
  open_price = minus_one;
  high = minus_one;
  low = minus_one;
  close = minus_one;
  volume = negsuc 0;
  count = negsuc 0;
  wap = minus_one;
  has_gaps = false;
}

pub record PacketHistData : Type 0 where
  pub status : Status
  pub req_id : ℤ
  pub request : Option HistRequest
  pub rows : List RowHist
  pub finish_row : RowHist

unfoldable pub clear : PacketHistData → PacketHistData
clear p = record {
  status = record { mode = clean; error = err_none };
  req_id = negsuc 0;
  request = none;
  rows = [];
  finish_row = dflt_row;
}

unfoldable pub record_request : ℤ → HistRequest → PacketHistData → Option PacketHistData
record_request id hr p =
    assert (is_clean p.status.mode && (no_error p.status.error && is_none p.request))
    >> some
        (record p { status = record p.status { mode = recording }; req_id = id; request = some hr })

-- A row whose date starts with "finished" is the end.
unfoldable pub append : ℤ → RowHist → PacketHistData → Option PacketHistData
append id row p =
    assert (is_recording p.status.mode && no_error p.status.error)
    >> (assert (eqb_ℤ p.req_id id)
        >> some (
            if starts_with (bytes "finished") row.date
            then record p { status = record p.status { mode = closed }; finish_row = row }
            else record p { rows = p.rows ++ row ∷ [] }))

-- The callbacks of an answer, one after the other.
unfoldable pub append_all : ℤ → List RowHist → PacketHistData → Option PacketHistData
append_all id [] p = some p
append_all id (row ∷ rows) p = append id row p >>= append_all id rows
