-- ===== src/Xml/Tests.antt =====
-- Examples for src/tws_xml.cpp: libxml2 as a list of attributes, and numbers as single characters.
use twstools.Xml.Stream.{form_feed, block_size, Input, next_xml_doc}
use twstools.Xml.Stream.Split.{content, before_ff, after_ff, IsSound, next_xml_doc_lem}
use twstools.Xml.Documents.{DocLib, DocLaws, TwsXml, all_nodes}
use twstools.Xml.Documents.Roots.{pending, doc_nodes, nodes_of, pieces}
use twstools.Xml.Documents.Nodes.{all_nodes_lem}
use mathlib.Core.Option
use twstools.Base.{
  map, not, Returns, keep_if, ap, ◌==◌, ◌≡◌, ◌≢◌, refl, true, Option, none, some, List, [], ◌∷◌,
  ◌++◌, if◌then◌else◌, All, arith,
}
use twstools.Base.Int.{ℤ, pos, negsuc}
use twstools.Base.Text.{Text, bytes, text_eq, text_eq_refl, text_ne}
use twstools.Xml.{number, text, Struct, XmlLib, XmlLaws, write, read}
use twstools.Xml.Rows.{hist_request_writer}
use twstools.Xml.Writing.{IsFor, for_int, for_string}
use twstools.Xml.RoundTrip.{hist_request, writer, reader, read-write}

abbrev pub Attrs : Type 0
Attrs = List (Text × Text)

unfoldable pub prop_of : Text → Attrs → Option Text
prop_of n [] = none
prop_of n ((m, v) ∷ ps) = if text_eq m n then some v else prop_of n ps

-- A number as a sign and a digit of an unbounded base, but for the two of a bool.
abbrev print_digit : ℤ → Text
print_digit (pos n) = 1 ∷ n ∷ []
print_digit (negsuc n) = 2 ∷ n ∷ []

abbrev parse_digit : Text → ℤ
parse_digit (s ∷ n ∷ []) = if s == 1 then pos n else negsuc n
parse_digit (c ∷ []) = if c == b'1' then pos 1 else pos 0
parse_digit _ = pos 0

pub digit_back : (a : ℤ) → parse_digit (print_digit a) ≡ a
digit_back (pos n) = refl
digit_back (negsuc n) = refl

abbrev pub plain_lib : XmlLib
plain_lib = record {
  Node = Attrs;
  get_prop = prop_of;
  new_prop = λ n v ps. ps ++ (n, v) ∷ [];
  print_int = print_digit;
  print_long = print_digit;
  print_long_long = print_digit;
  print_double = λ d. d ∷ [];
  atoi = parse_digit;
  atol = parse_digit;
  atoll = parse_digit;
  atof = λ t. elim t [ [] ↦ 0 | d ∷ _ ↦ d ];
  same_double = λ a b. a == b;
}

pub prop_new :
    (n v : Text) (ps : Attrs) → prop_of n ps ≡ none → prop_of n (ps ++ (n, v) ∷ []) ≡ some v
unfolding prop_of
prop_new n v [] h = ground (arith, text_eq_refl n)
prop_new n v ((m, w) ∷ ps) h = ground (arith, h, prop_new n v ps)

pub prop_other : (n m v : Text) (ps : Attrs) → n ≢ m → prop_of m (ps ++ (n, v) ∷ []) ≡ prop_of m ps
unfolding prop_of
prop_other n m v [] h = ground (arith, text_ne n m h)
prop_other n m v ((k, w) ∷ ps) h = ground (arith, prop_other n m v ps h)

pub plain_laws : XmlLaws plain_lib
unfolding bytes
plain_laws = record {
  get_new = prop_new;
  get_other = prop_other;
  atoi_print = λ a h. digit_back a;
  atol_print = λ a h. digit_back a;
  atoll_print = λ a h. digit_back a;
  atoi_one = refl;
  atoi_zero = refl;
}

-- A request for the last month of trades.
abbrev month_of_trades : Struct
month_of_trades m =
    if text_eq m (bytes "useRTH")
    then number (pos 1)
    else (if text_eq m (bytes "formatDate")
        then number (pos 1)
        else (if text_eq m (bytes "whatToShow") then text (bytes "TRADES") else text []))

abbrev dflt_request : Struct
dflt_request m =
    if text_eq m (bytes "useRTH")
    then number (pos 0)
    else (if text_eq m (bytes "formatDate") then number (pos 0) else text [])

pub bare_node : (b : Text) → prop_of b [] ≡ none
unfolding prop_of
bare_node b = refl

month-IsFor :
    All
      (λ w. IsFor plain_lib w.kind (month_of_trades w.member) (dflt_request w.member))
      (writer hist_request)
unfolding writer hist_request_writer bytes text_eq
month-IsFor = (
  for_string [] [],
  (
    for_string [] [],
    (
      for_string [] [],
      (
        for_string (bytes "TRADES") [],
        (
          for_int (pos 1) (pos 0) (omega arith, omega arith),
          (for_int (pos 1) (pos 0) (omega arith, omega arith), tt),
        ),
      ),
    ),
  ),
)

read-write_example :
    All
      (λ w.
        read plain_lib
          (reader hist_request)
          (write plain_lib true dflt_request (writer hist_request) month_of_trades [])
          dflt_request
          w.member
        ≡ month_of_trades w.member)
      (writer hist_request)
read-write_example =
    read-write plain_lib plain_laws hist_request true dflt_request month_of_trades [] bare_node
      month-IsFor

-- Documents as a text of their own: each byte is a node, and blanks are no elements.
abbrev byte_lib : DocLib
byte_lib = record {
  Doc = Text;
  Node = Text × Text;
  read_memory = λ s. elim s [ [] ↦ none | c ∷ cs ↦ some (c ∷ cs) ];
  root_element = λ d. some (bytes "TWSXML", d);
  is_element = λ n. not (text_eq n.0 (bytes " "));
  name = λ n. n.0;
  children = λ n. map (λ c. (c ∷ [], [])) n.1;
}

byte_laws : DocLaws byte_lib
unfolding bytes text_eq
byte_laws = record {
  read_empty = refl;
  root_is_element = λ d n e.
      let named = ap (Option.map (λ m. not (text_eq m.0 (bytes " ")))) e in ground (arith, named);
}

-- Two documents, of which the second comes in two pieces.
abbrev two_docs : Input
two_docs = record {
  buf_size = block_size;
  buf = bytes "ab";
  reads = (form_feed ∷ bytes "c ") ∷ bytes "d" ∷ [];
}

two_docs-IsSound : IsSound two_docs
unfolding bytes
two_docs-IsSound = record { fits = omega arith; reads = omega arith }

next_xml_doc_lem_example :
    Returns
      (λ r.
        (r.0 ≡ byte_lib.read_memory (before_ff (content two_docs)))
        × (content r.1 ≡ after_ff (content two_docs))
        × IsSound r.1)
      (next_xml_doc byte_lib.read_memory two_docs)
next_xml_doc_lem_example = next_xml_doc_lem byte_lib.read_memory two_docs two_docs-IsSound

abbrev doc_file : TwsXml byte_lib
doc_file = record { has_file = true; input = two_docs; cur_doc = none; cur_node = [] }

all_nodes_lem_example :
    Returns (λ r. r.0 ≡ pending byte_lib doc_file) (all_nodes byte_lib 10 10 doc_file)
unfolding bytes nodes_of pieces doc_nodes keep_if text_eq
all_nodes_lem_example =
    all_nodes_lem byte_lib byte_laws 10 10 doc_file (refl, two_docs-IsSound) (omega arith)
      (omega arith)
