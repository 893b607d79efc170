-- ===== src/Xml/Contracts.antt =====
-- What src/tws_xml.cpp writes and reads of contracts and executions, with the newest version of the API:
-- the attributes, in the order of the code. Child elements stand in Xml/Trees.
use twstools.Base.{List, [], ◌∷◌}
use twstools.Base.Text.{bytes}
use twstools.Xml.{Field, field, bool_attr, double_attr, int_attr, long_attr, string_attr}

-- conv_ib2xml of a ComboLeg
unfoldable pub combo_leg_writer : List Field
combo_leg_writer =
    field "conId" long_attr
    ∷ field "ratio" long_attr
    ∷ field "action" string_attr
    ∷ field "exchange" string_attr
    ∷ field "openClose" long_attr
    ∷ field "shortSaleSlot" long_attr
    ∷ field "designatedLocation" string_attr
    ∷ field "exemptCode" int_attr
    ∷ []

-- conv_xml2ib of a ComboLeg
unfoldable pub combo_leg_reader : List Field
combo_leg_reader =
    field "conId" long_attr
    ∷ field "ratio" long_attr
    ∷ field "action" string_attr
    ∷ field "exchange" string_attr
    ∷ field "openClose" long_attr
    ∷ field "shortSaleSlot" long_attr
    ∷ field "designatedLocation" string_attr
    ∷ field "exemptCode" int_attr
    ∷ []

-- conv_ib2xml of a DeltaNeutralContract
unfoldable pub delta_neutral_contract_writer : List Field
delta_neutral_contract_writer =
    field "conId" long_attr ∷ field "delta" double_attr ∷ field "price" double_attr ∷ []

-- conv_xml2ib of a DeltaNeutralContract
unfoldable pub delta_neutral_contract_reader : List Field
delta_neutral_contract_reader =
    field "conId" long_attr ∷ field "delta" double_attr ∷ field "price" double_attr ∷ []

-- conv_ib2xml of a Contract
unfoldable pub contract_writer : List Field
contract_writer =
    field "conId" long_attr
    ∷ field "symbol" string_attr
    ∷ field "secType" string_attr
    ∷ record {
      attr = bytes "expiry";
      member = bytes "lastTradeDateOrContractMonth";
      kind = string_attr;
    }
    ∷ field "strike" double_attr
    ∷ field "right" string_attr
    ∷ field "multiplier" string_attr
    ∷ field "exchange" string_attr
    ∷ field "primaryExchange" string_attr
    ∷ field "currency" string_attr
    ∷ field "localSymbol" string_attr
    ∷ field "tradingClass" string_attr
    ∷ field "includeExpired" bool_attr
    ∷ field "secIdType" string_attr
    ∷ field "secId" string_attr
    ∷ field "comboLegsDescrip" string_attr
    ∷ []

-- conv_xml2ib of a Contract
unfoldable pub contract_reader : List Field
contract_reader =
    field "conId" long_attr
    ∷ field "symbol" string_attr
    ∷ field "secType" string_attr
    ∷ record {
      attr = bytes "expiry";
      member = bytes "lastTradeDateOrContractMonth";
      kind = string_attr;
    }
    ∷ field "lastTradeDateOrContractMonth" string_attr
    ∷ field "strike" double_attr
    ∷ field "right" string_attr
    ∷ field "multiplier" string_attr
    ∷ field "exchange" string_attr
    ∷ field "primaryExchange" string_attr
    ∷ field "currency" string_attr
    ∷ field "localSymbol" string_attr
    ∷ field "tradingClass" string_attr
    ∷ field "includeExpired" bool_attr
    ∷ field "secIdType" string_attr
    ∷ field "secId" string_attr
    ∷ field "comboLegsDescrip" string_attr
    ∷ []

-- conv_ib2xml of a ContractDetails
unfoldable pub contract_details_writer : List Field
contract_details_writer =
    field "marketName" string_attr
    ∷ field "minTick" double_attr
    ∷ field "orderTypes" string_attr
    ∷ field "validExchanges" string_attr
    ∷ field "priceMagnifier" long_attr
    ∷ field "underConId" int_attr
    ∷ field "longName" string_attr
    ∷ field "contractMonth" string_attr
    ∷ field "industry" string_attr
    ∷ field "category" string_attr
    ∷ field "subcategory" string_attr
    ∷ field "timeZoneId" string_attr
    ∷ field "tradingHours" string_attr
    ∷ field "liquidHours" string_attr
    ∷ field "evRule" string_attr
    ∷ field "evMultiplier" double_attr
    ∷ field "mdSizeMultiplier" int_attr
    ∷ field "aggGroup" int_attr
    ∷ field "underSymbol" string_attr
    ∷ field "underSecType" string_attr
    ∷ field "marketRuleIds" string_attr
    ∷ field "realExpirationDate" string_attr
    ∷ field "lastTradeTime" string_attr
    ∷ field "cusip" string_attr
    ∷ field "ratings" string_attr
    ∷ field "descAppend" string_attr
    ∷ field "bondType" string_attr
    ∷ field "couponType" string_attr
    ∷ field "callable" bool_attr
    ∷ field "putable" bool_attr
    ∷ field "coupon" double_attr
    ∷ field "convertible" bool_attr
    ∷ field "maturity" string_attr
    ∷ field "issueDate" string_attr
    ∷ field "nextOptionDate" string_attr
    ∷ field "nextOptionType" string_attr
    ∷ field "nextOptionPartial" bool_attr
    ∷ field "notes" string_attr
    ∷ []

-- conv_xml2ib of a ContractDetails
unfoldable pub contract_details_reader : List Field
contract_details_reader =
    field "marketName" string_attr
    ∷ field "minTick" double_attr
    ∷ field "orderTypes" string_attr
    ∷ field "validExchanges" string_attr
    ∷ field "priceMagnifier" long_attr
    ∷ field "underConId" int_attr
    ∷ field "longName" string_attr
    ∷ field "contractMonth" string_attr
    ∷ field "industry" string_attr
    ∷ field "category" string_attr
    ∷ field "subcategory" string_attr
    ∷ field "timeZoneId" string_attr
    ∷ field "tradingHours" string_attr
    ∷ field "liquidHours" string_attr
    ∷ field "evRule" string_attr
    ∷ field "evMultiplier" double_attr
    ∷ field "mdSizeMultiplier" int_attr
    ∷ field "aggGroup" int_attr
    ∷ field "underSymbol" string_attr
    ∷ field "underSecType" string_attr
    ∷ field "marketRuleIds" string_attr
    ∷ field "realExpirationDate" string_attr
    ∷ field "lastTradeTime" string_attr
    ∷ field "cusip" string_attr
    ∷ field "ratings" string_attr
    ∷ field "descAppend" string_attr
    ∷ field "bondType" string_attr
    ∷ field "couponType" string_attr
    ∷ field "callable" bool_attr
    ∷ field "putable" bool_attr
    ∷ field "coupon" double_attr
    ∷ field "convertible" bool_attr
    ∷ field "maturity" string_attr
    ∷ field "issueDate" string_attr
    ∷ field "nextOptionDate" string_attr
    ∷ field "nextOptionType" string_attr
    ∷ field "nextOptionPartial" bool_attr
    ∷ field "notes" string_attr
    ∷ []

-- conv_ib2xml of a Execution
unfoldable pub execution_writer : List Field
execution_writer =
    field "execId" string_attr
    ∷ field "time" string_attr
    ∷ field "acctNumber" string_attr
    ∷ field "exchange" string_attr
    ∷ field "side" string_attr
    ∷ field "shares" double_attr
    ∷ field "price" double_attr
    ∷ field "permId" int_attr
    ∷ field "clientId" long_attr
    ∷ field "orderId" long_attr
    ∷ field "liquidation" int_attr
    ∷ field "cumQty" double_attr
    ∷ field "avgPrice" double_attr
    ∷ field "orderRef" string_attr
    ∷ field "evRule" string_attr
    ∷ field "evMultiplier" double_attr
    ∷ field "modelCode" string_attr
    ∷ field "lastLiquidity" int_attr
    ∷ []

-- conv_xml2ib of a Execution
unfoldable pub execution_reader : List Field
execution_reader =
    field "execId" string_attr
    ∷ field "time" string_attr
    ∷ field "acctNumber" string_attr
    ∷ field "exchange" string_attr
    ∷ field "side" string_attr
    ∷ field "shares" double_attr
    ∷ field "price" double_attr
    ∷ field "permId" int_attr
    ∷ field "clientId" long_attr
    ∷ field "orderId" long_attr
    ∷ field "liquidation" int_attr
    ∷ field "cumQty" double_attr
    ∷ field "avgPrice" double_attr
    ∷ field "orderRef" string_attr
    ∷ field "evRule" string_attr
    ∷ field "evMultiplier" double_attr
    ∷ field "modelCode" string_attr
    ∷ field "lastLiquidity" int_attr
    ∷ []

-- conv_ib2xml of a ExecutionFilter
unfoldable pub execution_filter_writer : List Field
execution_filter_writer =
    field "m_clientId" long_attr
    ∷ field "m_acctCode" string_attr
    ∷ field "m_time" string_attr
    ∷ field "m_symbol" string_attr
    ∷ field "m_secType" string_attr
    ∷ field "m_exchange" string_attr
    ∷ field "m_side" string_attr
    ∷ []

-- conv_xml2ib of a ExecutionFilter
unfoldable pub execution_filter_reader : List Field
execution_filter_reader =
    field "m_clientId" long_attr
    ∷ field "m_acctCode" string_attr
    ∷ field "m_time" string_attr
    ∷ field "m_symbol" string_attr
    ∷ field "m_secType" string_attr
    ∷ field "m_exchange" string_attr
    ∷ field "m_side" string_attr
    ∷ []
