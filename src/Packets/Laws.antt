-- ===== src/Packets/Laws.antt =====
-- The packets of src/tws_meta.cpp: what a run of callbacks leaves in one.
use twstools.Base.{
  ◌≡◌, refl, ap, ◌∙◌, true, false, none, some, List, [], ◌∷◌, ◌++◌, ◌>>=◌, All, Returns,
}
use mathlib.Core.List.{append_assoc, append-nil}
use twstools.Base.Int.{ℤ, eqb_ℤ, eqb_ℤ_iff}
use twstools.Base.Text.{Text, bytes, starts_with}
use twstools.Requests.{HistRequest, AccStatusRequest}
use twstools.Packets.Streams.{
  RowAcc, acc_val, acc_prtfl, acc_stamp, acc_end, PacketAccStatus, clear_acc, record_acc,
  append_acc_val, append_prtfl, append_update_account_time, append_account_download_end, append_acc,
  append_accs,
}
use twstools.Packets.{
  clean, is_empty, finished, recording, closed, ReqErr, err_none, Status, close_error,
}
use twstools.Packets.History.{
  RowHist, dflt_row, PacketHistData, clear, record_request, append, append_all,
}

same_id : (id : ℤ) → eqb_ℤ id id ≡ true
same_id id = (eqb_ℤ_iff id id).1 refl

-- The packet of a request, with these rows.
abbrev pub collecting : ℤ → HistRequest → List RowHist → PacketHistData
collecting id hr rows = record {
  status = record { mode = recording; error = err_none };
  req_id = id;
  request = some hr;
  rows = rows;
  finish_row = dflt_row;
}

append_rows :
    (id : ℤ) (hr : HistRequest) (before rows : List RowHist) (end : RowHist)
    → All (λ (r : RowHist). starts_with (bytes "finished") r.date ≡ false) rows
    → starts_with (bytes "finished") end.date ≡ true
    → append_all id (rows ++ end ∷ []) (collecting id hr before)
      ≡ some (record (collecting id hr (before ++ rows)) {
        status = record { mode = closed; error = err_none };
        finish_row = end;
      })
unfolding append_all append
append_rows id hr before [] end h k = rw (same_id id, k, append-nil) refl
append_rows id hr before (row ∷ rows) end h k =
    rw (same_id id, h.0, append_rows id hr (before ++ row ∷ []) rows end h.1 k, append_assoc) refl

-- After clear, record returns, and the rows of the answer up to the one whose date starts with
-- "finished" are collected in order; that one closes the packet, without an error.
pub hist_data_collects :
    (id : ℤ) (hr : HistRequest) (rows : List RowHist) (end : RowHist) (p : PacketHistData)
    → All (λ (r : RowHist). starts_with (bytes "finished") r.date ≡ false) rows
    → starts_with (bytes "finished") end.date ≡ true
    → (record_request id hr (clear p) >>= append_all id (rows ++ end ∷ []))
      ≡ some (record {
        status = record { mode = closed; error = err_none };
        req_id = id;
        request = some hr;
        rows = rows;
        finish_row = end;
      })
unfolding record_request clear
hist_data_collects id hr rows end p h k = append_rows id hr [] rows end h k

-- closeError on a packet that is recording closes it with that error, and a later closeError does
-- not change the error any more.
pub close_error_first :
    (e f : ReqErr) (s : Status)
    → s.mode ≡ recording
    → (close_error e s >>= close_error f) ≡ some (record { mode = closed; error = e })
unfolding close_error
close_error_first e f s h = rw (h, close_error) refl

module _ {V P : Type 0} where
  append_accs-rows :
      (rows : List (RowAcc V P)) (p : PacketAccStatus V P)
      → (append_accs rows p).rows ≡ p.rows ++ rows
  unfolding append_accs append_acc append_acc_val append_prtfl append_update_account_time
      append_account_download_end
  append_accs-rows [] p = rw append-nil refl
  append_accs-rows (acc_val v ∷ rows) p =
      append_accs-rows rows (append_acc_val v p) ∙ append_assoc p.rows (acc_val v ∷ []) rows
  append_accs-rows (acc_prtfl q ∷ rows) p =
      append_accs-rows rows (append_prtfl q p) ∙ append_assoc p.rows (acc_prtfl q ∷ []) rows
  append_accs-rows (acc_stamp t ∷ rows) p =
      append_accs-rows rows (append_update_account_time t p)
      ∙ append_assoc p.rows (acc_stamp t ∷ []) rows
  append_accs-rows (acc_end a ∷ rows) p =
      append_accs-rows rows (append_account_download_end a p)
      ∙ append_assoc p.rows (acc_end a ∷ []) rows

  -- On a clean packet without rows record returns; the rows that TWS sends then are collected in
  -- order, and once the download ends the packet can be cleared, which leaves it clean, with no rows
  -- and no request.
  pub acc_status_collects :
      (r : AccStatusRequest) (rows : List (RowAcc V P)) (a : Text) (p : PacketAccStatus V P)
      → p.status.mode ≡ clean
      → p.rows ≡ []
      → Returns
          (λ (q : PacketAccStatus V P).
            (q.rows ≡ rows ++ acc_end a ∷ [])
            × Returns
                (λ (c : PacketAccStatus V P).
                  (c.status.mode ≡ clean) × (c.rows ≡ []) × (c.request ≡ none))
                (clear_acc q))
          (record_acc r p >>= λ q. some (append_account_download_end a (append_accs rows q)))
  unfolding record_acc append_account_download_end clear_acc is_empty finished
  acc_status_collects r rows a p m e =
      let q = record p { status = record p.status { mode = recording }; request = some r } in
      rw m (
        ap (λ xs. xs ++ acc_end a ∷ []) (append_accs-rows rows q ∙ ap (λ xs. xs ++ rows) e),
        (refl, refl, refl),
      )
