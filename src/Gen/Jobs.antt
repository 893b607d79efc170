-- ===== src/Gen/Jobs.antt =====
-- gen_hist_job, gen_csv and main of src/twsgen.cpp. What TwsXml and the packets' fromXml make of the file
-- comes as values: for a job the summaries of each packet of contract details, for rows the packets of
-- historical data, of which the code reads the request. What is printed is a list.
pub mod Laws
use twstools.Base.{
  ℕ, suc, ◌≡◌, Bool, true, false, not, ◌&&◌, Option, none, some, List, [], ◌∷◌, ◌++◌, map,
  if◌then◌else◌, ◌>>=◌, is_none,
}
use twstools.Base.Int.{ℤ, pos, negsuc, ltb_ℤ, leb_ℤ}
use twstools.Base.Text.{Text, empty, text_lt}
use twstools.Requests.{Contract, HistRequest, initialize}
use twstools.Gen.{
  Args, Settings, gengetopt_check_opts, format_date, ExpiryMode, exp_keep, exp_auto, exp_always,
  exp_never, set_include_expired, get_inc_exp,
}
use twstools.Gen.Durations.{max_duration_str}
use twstools.Gen.Words.{split_what_to_show}
use twstools.Gen.Dates.{TimeLib, ib_strptime, min_begin_date, skip_expiry}

-- useRTHp, an int that is 1 if the option is given
abbrev flag_int : Bool → ℤ
flag_int b = if b then pos 1 else pos 0

-- hR of one word of --whatToShow.
unfoldable pub hist_request : Settings → Text → Contract → Text → HistRequest
hist_request s dur c wts =
    initialize c s.end_date_time dur s.bar_size_setting wts (flag_int s.use_rth) (format_date s)

-- myProp_reqMaxContractsPerSpec
abbrev max_contracts : ℤ
max_contracts = negsuc 0

abbrev is_enough : ℕ → Bool
is_enough i = ltb_ℤ (pos 0) max_contracts && leb_ℤ max_contracts (pos i)

-- c.includeExpired
unfoldable pub set_expired : ExpiryMode → Contract → Option Contract
set_expired exp_keep c = some c
set_expired mode c = get_inc_exp mode c.sec_type >>= λ b. some (record c { include_expired = b })

unfoldable pub given_duration : Settings → Option Text
given_duration s = elim (s.duration_str) [
  | some d ↦ some d
  | none ↦ max_duration_str s.bar_size_setting
]

module _ {P : Type 0} (request : P → HistRequest) where
  -- The test of max_expiryp.
  unfoldable pub is_too_late : Option Text → P → Bool
  is_too_late none p = false
  is_too_late (some latest) p =
      let expiry = (request p).ib_contract.expiry in not (empty expiry) && text_lt latest expiry

  unfoldable pub csv_loop : Option Text → List P → List P
  csv_loop max_expiry [] = []
  csv_loop max_expiry (p ∷ ps) =
      let rest = csv_loop max_expiry ps in if is_too_late max_expiry p then rest else p ∷ rest

module _ (lib : TimeLib) where
  -- The loop over the contracts of a packet.
  unfoldable pub contract_loop :
      Settings → Text → ExpiryMode → List Text → ℤ → ℕ → List Contract → Option (List HistRequest)
  unfolding set_expired hist_request
  contract_loop s dur mode words t_begin i [] = some []
  contract_loop s dur mode words t_begin i (cd ∷ cds) =
      let rest = contract_loop s dur mode words t_begin (suc i) cds in
      set_expired mode cd >>= λ c.
      if is_enough i
      then some []
      else (skip_expiry lib c.expiry t_begin >>= λ skip.
          if skip then rest else (rest >>= λ jobs. some (map (hist_request s dur c) words ++ jobs)))

  -- The loop over the documents.
  unfoldable pub doc_loop :
      Settings
      → Text
      → ExpiryMode
      → List Text
      → ℤ
      → List (List Contract)
      → Option (List HistRequest)
  unfolding contract_loop
  doc_loop s dur mode words t_begin [] = some []
  doc_loop s dur mode words t_begin (cds ∷ docs) =
      contract_loop s dur mode words t_begin 0 cds >>= λ jobs.
      doc_loop s dur mode words t_begin docs >>= λ more. some (jobs ++ more)

  -- Its result, and the requests that are printed; without docs the file cannot be opened.
  unfoldable pub gen_hist_job :
      Settings
      → Text
      → ExpiryMode
      → List Text
      → Option (List (List Contract))
      → Option (Bool × List HistRequest)
  unfolding doc_loop
  gen_hist_job s dur mode words none = some (false, [])
  gen_hist_job s dur mode words (some docs) = min_begin_date lib s.end_date_time dur >>= λ t_begin.
      doc_loop s dur mode words t_begin docs >>= λ jobs. some (true, jobs)

  module _ {P : Type 0} (request : P → HistRequest) where
    -- Its result, and the packets that are printed.
    unfoldable pub gen_csv : Settings → Option (List P) → Bool × List P
    unfolding csv_loop is_too_late
    gen_csv s none = (false, [])
    gen_csv s (some ps) = elim (s.max_expiry) [
      | none ↦ (true, csv_loop request none ps)
      | some latest ↦ elim (ib_strptime lib latest) [
        | none ↦ (false, [])
        | some tm ↦ (true, csv_loop request (some latest) ps)
      ]
    ]

    -- What the program does: its exit status, and what it prints of either kind.
    unfoldable pub gen_main :
        Args
        → Option (List (List Contract))
        → Option (List P)
        → Option (ℕ × List HistRequest × List P)
    unfolding gen_hist_job gen_csv given_duration
    gen_main a contracts packets = do
      s ← gengetopt_check_opts a
      dur ← given_duration s
      words ← split_what_to_show s.what_to_show
      mode ← set_include_expired s.include_expired
      (if s.hist_job
          then (gen_hist_job s dur mode words contracts >>= λ r.
              some ((if r.0 then 0 else 1), r.1, []))
          else (if s.to_csv
              then (let r = gen_csv s packets in some ((if r.0 then 0 else 1), [], r.1))
              else some (2, [], [])))
