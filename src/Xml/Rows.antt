-- ===== src/Xml/Rows.antt =====
-- What src/tws_xml.cpp writes and reads of requests and of rows of historical data: the attributes, in
-- the order of the code. Child elements stand in Xml/Trees.
use twstools.Base.{List, [], ◌∷◌}
use twstools.Xml.{
  Field, field, bool_attr, double_attr, int_attr, long_attr, long_long_attr, string_attr,
}

-- to_xml of a HistRequest
unfoldable pub hist_request_writer : List Field
hist_request_writer =
    field "endDateTime" string_attr
    ∷ field "durationStr" string_attr
    ∷ field "barSizeSetting" string_attr
    ∷ field "whatToShow" string_attr
    ∷ field "useRTH" int_attr
    ∷ field "formatDate" int_attr
    ∷ []

-- from_xml of a HistRequest
unfoldable pub hist_request_reader : List Field
hist_request_reader =
    field "endDateTime" string_attr
    ∷ field "durationStr" string_attr
    ∷ field "barSizeSetting" string_attr
    ∷ field "whatToShow" string_attr
    ∷ field "useRTH" int_attr
    ∷ field "formatDate" int_attr
    ∷ []

-- to_xml of a AccStatusRequest
unfoldable pub acc_status_request_writer : List Field
acc_status_request_writer = field "subscribe" bool_attr ∷ field "acctCode" string_attr ∷ []

-- from_xml of a AccStatusRequest
unfoldable pub acc_status_request_reader : List Field
acc_status_request_reader = field "subscribe" bool_attr ∷ field "acctCode" string_attr ∷ []

-- to_xml of a PlaceOrder
unfoldable pub place_order_writer : List Field
place_order_writer = field "orderId" long_attr ∷ field "time_sent" long_long_attr ∷ []

-- from_xml of a PlaceOrder
unfoldable pub place_order_reader : List Field
place_order_reader = field "orderId" long_attr ∷ field "time_sent" long_long_attr ∷ []

-- from_xml of a MktDataRequest
unfoldable pub mkt_data_request_reader : List Field
mkt_data_request_reader = field "genericTicks" string_attr ∷ field "snapshot" bool_attr ∷ []

-- to_xml of a RowHist
unfoldable pub row_hist_writer : List Field
row_hist_writer =
    field "date" string_attr
    ∷ field "open" double_attr
    ∷ field "high" double_attr
    ∷ field "low" double_attr
    ∷ field "close" double_attr
    ∷ field "volume" long_long_attr
    ∷ field "count" int_attr
    ∷ field "WAP" double_attr
    ∷ field "hasGaps" bool_attr
    ∷ []

-- from_xml of a RowHist
unfoldable pub row_hist_reader : List Field
row_hist_reader =
    field "date" string_attr
    ∷ field "open" double_attr
    ∷ field "high" double_attr
    ∷ field "low" double_attr
    ∷ field "close" double_attr
    ∷ field "volume" int_attr
    ∷ field "count" int_attr
    ∷ field "WAP" double_attr
    ∷ field "hasGaps" bool_attr
    ∷ []
