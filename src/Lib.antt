-- ===== src/Lib.antt =====
-- A model of twstools, the command line tools for the trader workstation (TWS) of Interactive Brokers,
-- and proofs about it. The tool twsdo reads a work file of requests, sends them to TWS one after the
-- other without breaking its pacing rules, and prints what comes back.
--
-- Parts and files, with paths from the repository's root:
--   Base      what the parts share: ℤ and the conversion to int, text as a list of bytes, std::map as
--             an association list, vectors, runs that return or stop.
--   Requests  the requests of src/tws_query.h. Of a struct of the TWS API there are the fields that
--             the modelled code reads.
--   Farms     class DataFarmStates of src/tws_meta.cpp: notify follows the messages about data farms,
--             learnHmds and learnHmdsLastOk find out which farm serves an exchange.
--   Pacing    Pacing/Control is class PacingControl, the history of one data farm: addRequest,
--             goodTime, countLeft, merge. Pacing/God is class PacingGod: it asks DataFarmStates for
--             the farm of a contract, moves and merges the controls as farms become known (checkAdd),
--             and passes the calls on to the control in charge.
--   Todo      Todo/Hist is class HistTodo, the lists of historical requests; checkoutOpt asks the
--             pacing controls which request to send. Todo/Indexed is ContractDetailsTodo and the
--             other lists with an index, Todo/Work is WorkTodo, which reads the work file and
--             decides what is next, Todo/Finish is TwsDL::finHist of src/twsdo.cpp.
--             Hist/Board, Hist/Play and Hist/Refine compare HistTodo with a board that only shows
--             where each request stands.
--   Packets   class Packet of src/tws_meta.cpp and the packets of contract details, historical data,
--             placed orders, the account, executions and open orders: what is collected until a request is answered.
--   Rows      the rows of src/tws_meta.h that TWS sends.
--   Account   class Account of src/tws_account.cpp.
--   Rate      struct RateLimit of src/twsdo.cpp.
--   Twsdo     class TwsDL of src/twsdo.cpp, the program itself: Twsdo/Config its options, Twsdo/Sending
--             the methods that send a request, Twsdo/Finish waitData and the fin methods,
--             Twsdo/Errors twsError and what it calls, Twsdo/Callbacks the other callbacks,
--             Twsdo/Loop the event loop. A run is a sequence of steps, each a callback or a round of the
--             loop, in any order; Twsdo/Reach has the states that such a sequence comes to. The other
--             children are about these.
--   Xml       the attributes that src/tws_xml.cpp writes and reads: a table for each struct of the
--             uses of its macros, in Xml/Contracts, Xml/Orders and Xml/Rows.
--             Xml/Stream is TwsXml::nextXmlDoc, which cuts a file at its form feeds while it reads it,
--             and Xml/Documents the rest of class TwsXml: the elements of one document after the other.
--             Xml/Trees has the child elements (legs, tag values, the contract of a ContractDetails) and
--             Xml/Trees/Requests the functions to_xml and from_xml of requests.
--   Util      src/tws_util.cpp: ib_duration2secs, the short names of settings, the names of ticks.
--   Gen       src/twsgen.cpp, the tool that makes work files out of contracts and rows out of answers:
--             Gen/Durations is max_durationStr, Gen/Words split_whatToShow, Gen/Dates min_begin_date and
--             skip_expiry, Gen/Jobs gen_hist_job, gen_csv and main.
--   Samples   a contract and requests for the examples, which stand in modules called Tests.
--
-- A method of a class is a function of the object's record, named in snake case after the method
-- (HistTodo::checkoutOpt is Hist.checkout_opt). It returns the new record; where the code asserts, or
-- uses what may not be there, it returns an Option, and `none` is a failed assertion, an exception
-- that nobody catches, or undefined behaviour. nowInMsecs() is an argument `now`, or a `clock` that
-- gives the answer to each of several calls. An instant is an unbounded integer; where the code keeps
-- a difference in an int it is cut to 32 bits by to_int. Pointers to requests are addresses in a store.
-- Loops are structural recursion, but for three: TwsXml counts the documents by fuel, for which one
-- more than the bytes of the file is enough, the loop over its elements counts these, and the loop over
-- strtok has a call for each byte; the theorems have such bounds as hypotheses, or choose them.
--
-- Of libxml2 and the C library's conversions there are interfaces with laws, XmlLib with XmlLaws,
-- TreeLib with TreeLaws and DocLib with DocLaws, and TimeLib for strptime and mktime; strtol and strtok are written out. The
-- connecting of the API, its isConnected, the strategy and the work file are arguments of the loop.
-- The API is the newest version that the code has an #if for.
--
-- Not modelled: log lines and output, the elements of the rows of answers (src/tws_xml.cpp), the forwarding to and
-- from the API (src/tws_client.cpp, src/tws_wrapper.cpp), quotes and ticks, the formatting of dates in
-- src/tws_util.cpp, and the option parsers, which are generated. The averages that goodTime computes for
-- a log line are left out. Elements of a work file come as values.
pub mod Base
pub mod Requests
pub mod Samples
pub mod Rows
pub mod Farms
pub mod Pacing
pub mod Packets
pub mod Todo
pub mod Rate
pub mod Account
pub mod Twsdo
pub mod Xml
pub mod Util
pub mod Gen
