-- ===== src/Gen/Jobs/Laws.antt =====
-- What src/twsgen.cpp prints: the requests of a job, and the rows.
use twstools.Base.{
  ℕ, suc, ◌≡◌, refl, sym, ap, ◌∙◌, inl, inr, Bool, true, false, not, ◌&&◌, ◌||◌, Option, none, some,
  List, [], ◌∷◌, ◌++◌, map, if◌then◌else◌, drop_if, All, Bool-cases, Option-cases, is_none, arith,
}
use mathlib.Core.List.{append_assoc}
use twstools.Base.Cuts.{concat}
use twstools.Base.Int.{ℤ, negsuc, ltb_ℤ, eqb_ℤ}
use twstools.Base.Text.{Text, bytes, empty, same_case}
use twstools.Requests.{Contract, HistRequest}
use twstools.Gen.{Settings, ExpiryMode, exp_keep, exp_auto, exp_always, exp_never, get_inc_exp}
use twstools.Gen.Dates.{Tm, TimeLib, ib_strptime, min_begin_date, skip_expiry}
use twstools.Gen.Jobs.{
  hist_request, set_expired, contract_loop, doc_loop, gen_hist_job, gen_csv, csv_loop, is_too_late,
}

-- The contract that is asked_for for.
unfoldable pub asked_for : ExpiryMode → Contract → Contract
asked_for exp_keep c = c
asked_for exp_always c = record c { include_expired = true }
asked_for exp_never c = record c { include_expired = false }
asked_for exp_auto c = record c {
  include_expired =
      same_case c.sec_type (bytes "OPT")
      || (same_case c.sec_type (bytes "FUT")
          || (same_case c.sec_type (bytes "FOP") || same_case c.sec_type (bytes "WAR")));
}

set_expired_lem : (mode : ExpiryMode) (c : Contract) → set_expired mode c ≡ some (asked_for mode c)
unfolding set_expired asked_for get_inc_exp
set_expired_lem exp_keep c = refl
set_expired_lem exp_auto c = refl
set_expired_lem exp_always c = refl
set_expired_lem exp_never c = refl

asked_for-expiry : (mode : ExpiryMode) (c : Contract) → (asked_for mode c).expiry ≡ c.expiry
unfolding asked_for
asked_for-expiry exp_keep c = refl
asked_for-expiry exp_auto c = refl
asked_for-expiry exp_always c = refl
asked_for-expiry exp_never c = refl

module _ (lib : TimeLib) where
  -- The time of a date, or -1.
  unfoldable pub time_of : Text → ℤ
  time_of s = elim (ib_strptime lib s) [
    | none ↦ negsuc 0
    | some tm ↦ lib.mktime (record tm { isdst = negsuc 0 })
  ]

  -- An expiry that is empty, or a date.
  abbrev pub IsDated : Text → Type 0
  IsDated expiry = (empty expiry || not (eqb_ℤ (time_of expiry) (negsuc 0))) ≡ true

  unfoldable pub is_expired : ℤ → Text → Bool
  is_expired t_begin expiry = not (empty expiry) && ltb_ℤ (time_of expiry) t_begin

  time_none : (s : Text) → ib_strptime lib s ≡ none → time_of s ≡ negsuc 0
  unfolding time_of
  time_none s e = rw (time_of, e) refl

  time_some :
      (s : Text) (tm : Tm)
      → ib_strptime lib s ≡ some tm
      → time_of s ≡ lib.mktime (record tm { isdst = negsuc 0 })
  unfolding time_of
  time_some s tm e = rw (time_of, e) refl

  skip_expiry_lem :
      (t_begin : ℤ) (expiry : Text)
      → IsDated expiry
      → skip_expiry lib expiry t_begin ≡ some (is_expired t_begin expiry)
  unfolding skip_expiry is_expired
  skip_expiry_lem t_begin expiry dated = elim (Bool-cases (empty expiry)) [
    | inl e ↦ rw e refl
    | inr e ↦ elim (Option-cases (ib_strptime lib expiry)) [
      | inl f ↦ let t = time_none expiry f in absurd (ground (arith, dated, e, t))
      | inr (tm, f) ↦
          let t = time_some expiry tm f in
          let alive : not (eqb_ℤ (lib.mktime (record tm { isdst = negsuc 0 })) (negsuc 0)) ≡ true =
            ground (arith, dated, e, t) in
          rw (e, f, alive, t) refl
    ]
  ]

module _ (lib : TimeLib) (s : Settings) (dur : Text) (mode : ExpiryMode) (words : List Text)
    (t_begin : ℤ) where
  -- The requests for a contract, one for each word.
  abbrev pub requests_for : Contract → List HistRequest
  requests_for c = map (hist_request s dur (asked_for mode c)) words

  abbrev pub is_old : Contract → Bool
  is_old c = is_expired lib t_begin c.expiry

  -- The requests for contracts that are not expired.
  abbrev pub requests_of : List Contract → List HistRequest
  requests_of cs = concat (map requests_for (drop_if is_old cs))

  contract_loop_lem :
      (i : ℕ) (cs : List Contract)
      → All (λ c. IsDated lib c.expiry) cs
      → contract_loop lib s dur mode words t_begin i cs ≡ some (requests_of cs)
  unfolding contract_loop drop_if
  contract_loop_lem i [] h = refl
  contract_loop_lem i (c ∷ cs) (dated, rest) =
      let skip : skip_expiry lib (asked_for mode c).expiry t_begin ≡ some (is_old c) =
        ap (λ x. skip_expiry lib x t_begin) (asked_for-expiry mode c)
        ∙ skip_expiry_lem lib t_begin c.expiry dated in
      rw (set_expired_lem mode c, skip, contract_loop_lem (suc i) cs rest)
        (elim (Bool-cases (is_old c)) [ inl old ↦ rw old refl | inr fresh ↦ rw fresh refl ])

  requests_of-append :
      (cs ds : List Contract) → requests_of (cs ++ ds) ≡ requests_of cs ++ requests_of ds
  unfolding drop_if
  requests_of-append [] ds = refl
  requests_of-append (c ∷ cs) ds = elim (Bool-cases (is_old c)) [
    | inl old ↦ rw old (requests_of-append cs ds)
    | inr fresh ↦ rw fresh (
        ap (λ r. requests_for c ++ r) (requests_of-append cs ds)
        ∙ sym (append_assoc (requests_for c) (requests_of cs) (requests_of ds)))
  ]

  doc_loop_lem :
      (docs : List (List Contract))
      → All (All (λ c. IsDated lib c.expiry)) docs
      → doc_loop lib s dur mode words t_begin docs ≡ some (requests_of (concat docs))
  unfolding doc_loop drop_if
  doc_loop_lem [] h = refl
  doc_loop_lem (cs ∷ docs) (dated, rest) =
      rw (contract_loop_lem 0 cs dated, doc_loop_lem docs rest)
        (ap some (sym (requests_of-append cs (concat docs))))

-- If the first date is known and every expiry is a date, the job of a file has, document after document
-- and contract after contract, a request for each word of --whatToShow, for the contracts that are not
-- expired by then, with includeExpired as the mode says; and no other.
pub gen_hist_job_lem :
    (lib : TimeLib) (s : Settings) (dur : Text) (mode : ExpiryMode) (words : List Text)
    (docs : List (List Contract)) (t_begin : ℤ)
    → min_begin_date lib s.end_date_time dur ≡ some t_begin
    → All (All (λ c. IsDated lib c.expiry)) docs
    → gen_hist_job lib s dur mode words (some docs)
      ≡ some (true, requests_of lib s dur mode words t_begin (concat docs))
unfolding gen_hist_job
gen_hist_job_lem lib s dur mode words docs t_begin start dated =
    rw (start, doc_loop_lem lib s dur mode words t_begin docs dated) refl

module _ {P : Type 0} (request : P → HistRequest) where
  csv_loop_lem :
      (latest : Option Text) (ps : List P)
      → csv_loop request latest ps ≡ drop_if (is_too_late request latest) ps
  unfolding csv_loop drop_if
  csv_loop_lem latest [] = refl
  csv_loop_lem latest (p ∷ ps) = rw (csv_loop_lem latest ps) refl

  csv_loop_all : (ps : List P) → csv_loop request none ps ≡ ps
  unfolding csv_loop is_too_late
  csv_loop_all [] = refl
  csv_loop_all (p ∷ ps) = ap (λ r. p ∷ r) (csv_loop_all ps)

-- Of a file that can be opened all packets are printed, in order, if there is no latest expiry; all but
-- those that expire later, if it is a date; and none if it is no date, which is an error.
pub gen_csv_lem :
    (lib : TimeLib) {P : Type 0} (request : P → HistRequest) (s : Settings) (ps : List P)
    → (s.max_expiry ≡ none → gen_csv lib request s (some ps) ≡ (true, ps))
      × ((latest : Text)
          → s.max_expiry ≡ some latest
          → gen_csv lib request s (some ps) ≡ (
              if is_none (ib_strptime lib latest)
              then (false, [])
              else (true, drop_if (is_too_late request (some latest)) ps)))
unfolding gen_csv
gen_csv_lem lib request s ps = (all_of, late)
  where
    all_of : s.max_expiry ≡ none → gen_csv lib request s (some ps) ≡ (true, ps)
    all_of e = rw e (ap (λ r. (true, r)) (csv_loop_all request ps))

    late :
        (latest : Text)
        → s.max_expiry ≡ some latest
        → gen_csv lib request s (some ps) ≡ (
            if is_none (ib_strptime lib latest)
            then (false, [])
            else (true, drop_if (is_too_late request (some latest)) ps))
    late latest e = elim (Option-cases (ib_strptime lib latest)) [
      | inl f ↦ rw (e, gen_csv, f) refl
      | inr (tm, f) ↦
          rw (e, gen_csv, f) (ap (λ r. (true, r)) (csv_loop_lem request (some latest) ps))
    ]
