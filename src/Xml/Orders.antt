-- ===== src/Xml/Orders.antt =====
-- What src/tws_xml.cpp writes and reads of orders, with the newest version of the API: the attributes,
-- in the order of the code. Child elements stand in Xml/Trees.
use twstools.Base.{List, [], ◌∷◌}
use twstools.Xml.{Field, field, bool_attr, double_attr, int_attr, long_attr, string_attr}

-- conv_ib2xml of a TagValue
unfoldable pub tag_value_writer : List Field
tag_value_writer = field "tag" string_attr ∷ field "value" string_attr ∷ []

-- conv_xml2ib of a TagValue
unfoldable pub tag_value_reader : List Field
tag_value_reader = field "tag" string_attr ∷ field "value" string_attr ∷ []

-- conv_ib2xml of a OrderComboLeg
unfoldable pub order_combo_leg_writer : List Field
order_combo_leg_writer = field "price" double_attr ∷ []

-- conv_xml2ib of a OrderComboLeg
unfoldable pub order_combo_leg_reader : List Field
order_combo_leg_reader = field "price" double_attr ∷ []

-- conv_ib2xml of a Order
unfoldable pub order_writer : List Field
order_writer =
    field "orderId" long_attr
    ∷ field "clientId" long_attr
    ∷ field "permId" int_attr
    ∷ field "action" string_attr
    ∷ field "totalQuantity" double_attr
    ∷ field "orderType" string_attr
    ∷ field "lmtPrice" double_attr
    ∷ field "auxPrice" double_attr
    ∷ field "tif" string_attr
    ∷ field "ocaGroup" string_attr
    ∷ field "activeStartTime" string_attr
    ∷ field "activeStopTime" string_attr
    ∷ field "ocaType" int_attr
    ∷ field "orderRef" string_attr
    ∷ field "transmit" bool_attr
    ∷ field "parentId" long_attr
    ∷ field "blockOrder" bool_attr
    ∷ field "sweepToFill" bool_attr
    ∷ field "displaySize" int_attr
    ∷ field "triggerMethod" int_attr
    ∷ field "outsideRth" bool_attr
    ∷ field "hidden" bool_attr
    ∷ field "goodAfterTime" string_attr
    ∷ field "goodTillDate" string_attr
    ∷ field "rule80A" string_attr
    ∷ field "allOrNone" bool_attr
    ∷ field "minQty" int_attr
    ∷ field "percentOffset" double_attr
    ∷ field "overridePercentageConstraints" bool_attr
    ∷ field "trailStopPrice" double_attr
    ∷ field "trailingPercent" double_attr
    ∷ field "faGroup" string_attr
    ∷ field "faProfile" string_attr
    ∷ field "faMethod" string_attr
    ∷ field "faPercentage" string_attr
    ∷ field "openClose" string_attr
    ∷ field "origin" int_attr
    ∷ field "shortSaleSlot" int_attr
    ∷ field "designatedLocation" string_attr
    ∷ field "exemptCode" int_attr
    ∷ field "discretionaryAmt" double_attr
    ∷ field "eTradeOnly" bool_attr
    ∷ field "firmQuoteOnly" bool_attr
    ∷ field "nbboPriceCap" double_attr
    ∷ field "optOutSmartRouting" bool_attr
    ∷ field "auctionStrategy" int_attr
    ∷ field "startingPrice" double_attr
    ∷ field "stockRefPrice" double_attr
    ∷ field "delta" double_attr
    ∷ field "stockRangeLower" double_attr
    ∷ field "stockRangeUpper" double_attr
    ∷ field "randomizeSize" bool_attr
    ∷ field "randomizePrice" bool_attr
    ∷ field "volatility" double_attr
    ∷ field "volatilityType" int_attr
    ∷ field "deltaNeutralOrderType" string_attr
    ∷ field "deltaNeutralAuxPrice" double_attr
    ∷ field "deltaNeutralConId" long_attr
    ∷ field "deltaNeutralSettlingFirm" string_attr
    ∷ field "deltaNeutralClearingAccount" string_attr
    ∷ field "deltaNeutralClearingIntent" string_attr
    ∷ field "deltaNeutralOpenClose" string_attr
    ∷ field "deltaNeutralShortSale" bool_attr
    ∷ field "deltaNeutralShortSaleSlot" int_attr
    ∷ field "deltaNeutralDesignatedLocation" string_attr
    ∷ field "continuousUpdate" bool_attr
    ∷ field "referencePriceType" int_attr
    ∷ field "basisPoints" double_attr
    ∷ field "basisPointsType" int_attr
    ∷ field "scaleInitLevelSize" int_attr
    ∷ field "scaleSubsLevelSize" int_attr
    ∷ field "scalePriceIncrement" double_attr
    ∷ field "scalePriceAdjustValue" double_attr
    ∷ field "scalePriceAdjustInterval" int_attr
    ∷ field "scaleProfitOffset" double_attr
    ∷ field "scaleAutoReset" bool_attr
    ∷ field "scaleInitPosition" int_attr
    ∷ field "scaleInitFillQty" int_attr
    ∷ field "scaleRandomPercent" bool_attr
    ∷ field "scaleTable" string_attr
    ∷ field "hedgeType" string_attr
    ∷ field "hedgeParam" string_attr
    ∷ field "account" string_attr
    ∷ field "settlingFirm" string_attr
    ∷ field "clearingAccount" string_attr
    ∷ field "clearingIntent" string_attr
    ∷ field "algoStrategy" string_attr
    ∷ field "algoId" string_attr
    ∷ field "whatIf" bool_attr
    ∷ field "notHeld" bool_attr
    ∷ field "solicited" bool_attr
    ∷ field "modelCode" string_attr
    ∷ field "referenceContractId" int_attr
    ∷ field "peggedChangeAmount" double_attr
    ∷ field "isPeggedChangeAmountDecrease" bool_attr
    ∷ field "referenceChangeAmount" double_attr
    ∷ field "referenceExchangeId" string_attr
    ∷ field "adjustedOrderType" string_attr
    ∷ field "triggerPrice" double_attr
    ∷ field "adjustedStopPrice" double_attr
    ∷ field "adjustedStopLimitPrice" double_attr
    ∷ field "adjustedTrailingAmount" double_attr
    ∷ field "adjustableTrailingUnit" int_attr
    ∷ field "lmtPriceOffset" double_attr
    ∷ field "conditionsCancelOrder" bool_attr
    ∷ field "conditionsIgnoreRth" bool_attr
    ∷ field "extOperator" string_attr
    ∷ field "cashQty" double_attr
    ∷ field "mifid2DecisionMaker" string_attr
    ∷ field "mifid2DecisionAlgo" string_attr
    ∷ field "mifid2ExecutionTrader" string_attr
    ∷ field "mifid2ExecutionAlgo" string_attr
    ∷ field "dontUseAutoPriceForHedge" bool_attr
    ∷ []

-- conv_xml2ib of a Order
unfoldable pub order_reader : List Field
order_reader =
    field "orderId" long_attr
    ∷ field "clientId" long_attr
    ∷ field "permId" int_attr
    ∷ field "action" string_attr
    ∷ field "totalQuantity" double_attr
    ∷ field "orderType" string_attr
    ∷ field "lmtPrice" double_attr
    ∷ field "auxPrice" double_attr
    ∷ field "tif" string_attr
    ∷ field "activeStartTime" string_attr
    ∷ field "activeStopTime" string_attr
    ∷ field "ocaGroup" string_attr
    ∷ field "ocaType" int_attr
    ∷ field "orderRef" string_attr
    ∷ field "transmit" bool_attr
    ∷ field "parentId" long_attr
    ∷ field "blockOrder" bool_attr
    ∷ field "sweepToFill" bool_attr
    ∷ field "displaySize" int_attr
    ∷ field "triggerMethod" int_attr
    ∷ field "outsideRth" bool_attr
    ∷ field "hidden" bool_attr
    ∷ field "goodAfterTime" string_attr
    ∷ field "goodTillDate" string_attr
    ∷ field "rule80A" string_attr
    ∷ field "allOrNone" bool_attr
    ∷ field "minQty" int_attr
    ∷ field "percentOffset" double_attr
    ∷ field "overridePercentageConstraints" bool_attr
    ∷ field "trailStopPrice" double_attr
    ∷ field "trailingPercent" double_attr
    ∷ field "faGroup" string_attr
    ∷ field "faProfile" string_attr
    ∷ field "faMethod" string_attr
    ∷ field "faPercentage" string_attr
    ∷ field "openClose" string_attr
    ∷ field "origin" int_attr
    ∷ field "shortSaleSlot" int_attr
    ∷ field "designatedLocation" string_attr
    ∷ field "exemptCode" int_attr
    ∷ field "discretionaryAmt" double_attr
    ∷ field "eTradeOnly" bool_attr
    ∷ field "firmQuoteOnly" bool_attr
    ∷ field "nbboPriceCap" double_attr
    ∷ field "optOutSmartRouting" bool_attr
    ∷ field "auctionStrategy" int_attr
    ∷ field "startingPrice" double_attr
    ∷ field "stockRefPrice" double_attr
    ∷ field "delta" double_attr
    ∷ field "stockRangeLower" double_attr
    ∷ field "stockRangeUpper" double_attr
    ∷ field "randomizeSize" bool_attr
    ∷ field "randomizePrice" bool_attr
    ∷ field "volatility" double_attr
    ∷ field "volatilityType" int_attr
    ∷ field "deltaNeutralOrderType" string_attr
    ∷ field "deltaNeutralAuxPrice" double_attr
    ∷ field "deltaNeutralConId" long_attr
    ∷ field "deltaNeutralSettlingFirm" string_attr
    ∷ field "deltaNeutralClearingAccount" string_attr
    ∷ field "deltaNeutralClearingIntent" string_attr
    ∷ field "deltaNeutralOpenClose" string_attr
    ∷ field "deltaNeutralShortSale" bool_attr
    ∷ field "deltaNeutralShortSaleSlot" int_attr
    ∷ field "deltaNeutralDesignatedLocation" string_attr
    ∷ field "continuousUpdate" bool_attr
    ∷ field "referencePriceType" int_attr
    ∷ field "basisPoints" double_attr
    ∷ field "basisPointsType" int_attr
    ∷ field "scaleInitLevelSize" int_attr
    ∷ field "scaleSubsLevelSize" int_attr
    ∷ field "scalePriceIncrement" double_attr
    ∷ field "scalePriceAdjustValue" double_attr
    ∷ field "scalePriceAdjustInterval" int_attr
    ∷ field "scaleProfitOffset" double_attr
    ∷ field "scaleAutoReset" bool_attr
    ∷ field "scaleInitPosition" int_attr
    ∷ field "scaleInitFillQty" int_attr
    ∷ field "scaleRandomPercent" bool_attr
    ∷ field "scaleTable" string_attr
    ∷ field "hedgeType" string_attr
    ∷ field "hedgeParam" string_attr
    ∷ field "account" string_attr
    ∷ field "settlingFirm" string_attr
    ∷ field "clearingAccount" string_attr
    ∷ field "clearingIntent" string_attr
    ∷ field "algoStrategy" string_attr
    ∷ field "algoId" string_attr
    ∷ field "whatIf" bool_attr
    ∷ field "notHeld" bool_attr
    ∷ field "solicited" bool_attr
    ∷ field "modelCode" string_attr
    ∷ field "referenceContractId" int_attr
    ∷ field "peggedChangeAmount" double_attr
    ∷ field "isPeggedChangeAmountDecrease" bool_attr
    ∷ field "referenceChangeAmount" double_attr
    ∷ field "referenceExchangeId" string_attr
    ∷ field "adjustedOrderType" string_attr
    ∷ field "triggerPrice" double_attr
    ∷ field "adjustedStopPrice" double_attr
    ∷ field "adjustedStopLimitPrice" double_attr
    ∷ field "adjustedTrailingAmount" double_attr
    ∷ field "adjustableTrailingUnit" int_attr
    ∷ field "lmtPriceOffset" double_attr
    ∷ field "conditionsCancelOrder" bool_attr
    ∷ field "conditionsIgnoreRth" bool_attr
    ∷ field "extOperator" string_attr
    ∷ field "cashQty" double_attr
    ∷ field "mifid2DecisionMaker" string_attr
    ∷ field "mifid2DecisionAlgo" string_attr
    ∷ field "mifid2ExecutionTrader" string_attr
    ∷ field "mifid2ExecutionAlgo" string_attr
    ∷ field "dontUseAutoPriceForHedge" bool_attr
    ∷ []

-- conv_ib2xml of a OrderState
unfoldable pub order_state_writer : List Field
order_state_writer =
    field "status" string_attr
    ∷ field "initMarginBefore" string_attr
    ∷ field "maintMarginBefore" string_attr
    ∷ field "equityWithLoanBefore" string_attr
    ∷ field "initMarginChange" string_attr
    ∷ field "maintMarginChange" string_attr
    ∷ field "equityWithLoanChange" string_attr
    ∷ field "initMarginAfter" string_attr
    ∷ field "maintMarginAfter" string_attr
    ∷ field "equityWithLoanAfter" string_attr
    ∷ field "commission" double_attr
    ∷ field "minCommission" double_attr
    ∷ field "maxCommission" double_attr
    ∷ field "commissionCurrency" string_attr
    ∷ field "warningText" string_attr
    ∷ []

-- conv_xml2ib of a OrderState
unfoldable pub order_state_reader : List Field
order_state_reader =
    field "status" string_attr
    ∷ field "initMarginBefore" string_attr
    ∷ field "maintMarginBefore" string_attr
    ∷ field "equityWithLoanBefore" string_attr
    ∷ field "initMarginChange" string_attr
    ∷ field "maintMarginChange" string_attr
    ∷ field "equityWithLoanChange" string_attr
    ∷ field "initMarginAfter" string_attr
    ∷ field "maintMarginAfter" string_attr
    ∷ field "equityWithLoanAfter" string_attr
    ∷ field "commission" double_attr
    ∷ field "minCommission" double_attr
    ∷ field "maxCommission" double_attr
    ∷ field "commissionCurrency" string_attr
    ∷ field "warningText" string_attr
    ∷ []
