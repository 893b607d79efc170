-- ===== src/Farms/HardCoded.antt =====
-- The exchanges whose data farm is hard-coded: DataFarmStates::initHardCodedFarms of
-- src/tws_meta.cpp, one list for each farm in the source's order.
use Prim.Native.String.{String}
use twstools.Base.{List, [], ◌∷◌}
use twstools.Base.Text.{Text, bytes}
use twstools.Base.Map.{Map, insert, text_key}

abbrev pub eu_exchanges : List String
eu_exchanges =
    "AEB" ∷ "BATECH" ∷ "BATEDE" ∷ "BATEEN" ∷ "BATEUK" ∷ "BELFOX" ∷ "BM" ∷ "BVL" ∷ "BVME"
    ∷ "BVME.ETF" ∷ "CHIXCH" ∷ "CHIXDE" ∷ "CHIXEN" ∷ "CHIXUK" ∷ "CPH" ∷ "DTB" ∷ "EBS" ∷ "EDXNO"
    ∷ "FTA" ∷ "FWB" ∷ "FWB2" ∷ "HEX" ∷ "IBIS" ∷ "IBIS2" ∷ "ICEEU" ∷ "IDEM" ∷ "LSE" ∷ "MATIF"
    ∷ "MEFFRV" ∷ "MONEP" ∷ "OMC" ∷ "OMH" ∷ "OMS" ∷ "OMXNO" ∷ "OSE" ∷ "SBF" ∷ "SBVM" ∷ "SFB"
    ∷ "SOFFEX" ∷ "SWB" ∷ "SWB2" ∷ "TGATE" ∷ "TOM" ∷ "TRQXCH" ∷ "TRQXDE" ∷ "TRQXEN" ∷ "TRQXUK"
    ∷ "VIRTX" ∷ "VSE" ∷ []

abbrev pub il_exchanges : List String
il_exchanges = "ECBOT" ∷ "GLOBEX" ∷ "ICEEUSOFT" ∷ "NYMEX" ∷ []

abbrev pub us_exchanges : List String
us_exchanges =
    "AMEX" ∷ "ARCA" ∷ "ARCAEDGE" ∷ "BATS" ∷ "BEX" ∷ "BYX" ∷ "CBOE" ∷ "CBOE2" ∷ "CBOT" ∷ "CDE"
    ∷ "CFE" ∷ "CHX" ∷ "CME" ∷ "DRCTEDGE" ∷ "EDGEA" ∷ "ELX" ∷ "IPE" ∷ "ISE" ∷ "ISLAND" ∷ "LAVA"
    ∷ "MEXDER" ∷ "MEXI" ∷ "NASDAQ" ∷ "NYBOT" ∷ "NYSE" ∷ "NYSELIFFE" ∷ "ONE" ∷ "PHLX" ∷ "PSE" ∷ "PSX"
    ∷ "RUSSELL" ∷ "TSE" ∷ "VENTURE" ∷ []

abbrev pub hk_exchanges : List String
hk_exchanges =
    "ASX" ∷ "CHIXJ" ∷ "HKFE" ∷ "KSE" ∷ "NSE" ∷ "OSE.JPN" ∷ "SEHK" ∷ "SEHKNTL" ∷ "SGX" ∷ "SNFE"
    ∷ "TSEJ" ∷ []

abbrev pub cash_exchanges : List String
cash_exchanges = "IDEALPRO" ∷ []

-- hLearn[exchange] = farm, for each of the exchanges.
unfoldable pub learn_each : Text → List String → Map Text Text → Map Text Text
learn_each farm [] m = m
learn_each farm (x ∷ xs) m = learn_each farm xs (insert (bytes x) farm m)

unfoldable pub init_hard_coded_farms : Map Text Text → Map Text Text
init_hard_coded_farms m = learn_each (bytes "cashhmds") cash_exchanges (
    learn_each (bytes "hkhmds") hk_exchanges (
      learn_each (bytes "ushmds.us") us_exchanges
        (learn_each (bytes "ilhmds") il_exchanges (learn_each (bytes "euhmds") eu_exchanges m))))
