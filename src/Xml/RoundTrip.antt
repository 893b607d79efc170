-- ===== src/Xml/RoundTrip.antt =====
-- What src/tws_xml.cpp writes it reads back: the tables of the writers and readers agree.
use twstools.Base.{
  ◌≡◌, refl, sym, ◌∙◌, inl, inr, Bool, true, ◌&&◌, none, List, [], ◌∷◌, All, arith, Bool-cases,
}
use twstools.Base.Text.{Text, bytes, text_eq, text_eq_refl}
use twstools.Xml.{Field, Struct, XmlLib, XmlLaws, same_value, print, is_skipped, write, read}
use twstools.Xml.Agree.{
  same_field, listed, has_attr, has_member, distinct, all_listed, all_fit, agrees,
}
use twstools.Xml.Writing.{
  IsFor, parse-print, same_value-eq, get-write, has_attr-listed, text_for, written-listed,
}
use twstools.Xml.Reading.{read_nothing, read_text, reader-Ok}
use twstools.Xml.Contracts.{
  combo_leg_writer, combo_leg_reader, delta_neutral_contract_writer, delta_neutral_contract_reader,
  contract_writer, contract_reader, contract_details_writer, contract_details_reader,
  execution_writer, execution_reader, execution_filter_writer, execution_filter_reader,
}
use twstools.Xml.Orders.{
  tag_value_writer, tag_value_reader, order_combo_leg_writer, order_combo_leg_reader, order_writer,
  order_reader, order_state_writer, order_state_reader,
}
use twstools.Xml.Rows.{
  hist_request_writer, hist_request_reader, acc_status_request_writer, acc_status_request_reader,
  place_order_writer, place_order_reader,
}

module _ (lib : XmlLib) (laws : XmlLaws lib) where
  -- One member of a struct that was written and read.
  read_member :
      (skip : Bool) (dflt s : Struct) (fs gs : List Field) (x : lib.Node) (w : Field)
      → agrees fs gs ≡ true
      → ((b : Text) → lib.get_prop b x ≡ none)
      → listed w fs ≡ true
      → listed w gs ≡ true
      → IsFor lib w.kind (s w.member) (dflt w.member)
      → read lib gs (write lib skip dflt fs s x) dflt w.member ≡ s w.member
  unfolding agrees is_skipped
  read_member skip dflt s fs gs x w ok bare l m good =
      let one : distinct fs ≡ true = ground (arith, ok) in
      let node = write lib skip dflt fs s x in
      let got = get-write lib laws skip dflt s fs x one (λ b _. bare b) in
      let fine =
        reader-Ok lib node w fs gs one l (λ b no_attr. ground (arith, got b, no_attr, bare b))
          (ground (arith, ok)) in
      let here : lib.get_prop w.attr node ≡ text_for lib laws skip dflt s w =
        ground (arith, got w.attr, has_attr-listed lib laws w fs l)
        ∙ written-listed lib laws skip dflt s w fs one l in
      elim (Bool-cases (skip && same_value lib (s w.member) (dflt w.member))) [
        | inl left_out ↦
            read_nothing lib node w gs dflt fine (here ∙ ground (arith, left_out))
            ∙ sym (
                same_value-eq lib laws w.kind (s w.member) (dflt w.member) good
                  (ground (arith, left_out)))
        | inr printed ↦
            read_text lib node w (print lib w.kind (s w.member)) gs dflt fine
              (here ∙ ground (arith, printed)) (inl m)
            ∙ parse-print lib laws w.kind (s w.member) (dflt w.member) good
      ]

  self_listed : (f : Field) (fs : List Field) → listed f (f ∷ fs) ≡ true
  unfolding listed same_field
  self_listed f fs = ground (arith, text_eq_refl f.attr, text_eq_refl f.member)

  -- The fields in a part of the writer's table.
  read_members :
      (skip : Bool) (dflt s : Struct) (fs gs part : List Field) (x : lib.Node)
      → agrees fs gs ≡ true
      → ((b : Text) → lib.get_prop b x ≡ none)
      → ((w : Field) → listed w part ≡ true → listed w fs ≡ true)
      → all_listed part gs ≡ true
      → All (λ w. IsFor lib w.kind (s w.member) (dflt w.member)) part
      → All (λ w. read lib gs (write lib skip dflt fs s x) dflt w.member ≡ s w.member) part
  unfolding all_listed listed
  read_members skip dflt s fs gs [] x ok bare sub l good = tt
  read_members skip dflt s fs gs (f ∷ part) x ok bare sub l good = (
    read_member skip dflt s fs gs x f ok bare (sub f (self_listed f part)) (ground (arith, l))
        good.0,
    read_members skip dflt s fs gs part x ok bare (λ w k. sub w (ground (arith, k)))
        (ground (arith, l)) good.1,
  )

-- The structs that are both written and read, but for RowHist.
pub data Table : Type 0 where
  combo_leg delta_neutral_contract contract contract_details execution execution_filter tag_value
        order_combo_leg order order_state hist_request acc_status_request place_order :
      Table

unfoldable pub writer : Table → List Field
writer combo_leg = combo_leg_writer
writer delta_neutral_contract = delta_neutral_contract_writer
writer contract = contract_writer
writer contract_details = contract_details_writer
writer execution = execution_writer
writer execution_filter = execution_filter_writer
writer tag_value = tag_value_writer
writer order_combo_leg = order_combo_leg_writer
writer order = order_writer
writer order_state = order_state_writer
writer hist_request = hist_request_writer
writer acc_status_request = acc_status_request_writer
writer place_order = place_order_writer

unfoldable pub reader : Table → List Field
reader combo_leg = combo_leg_reader
reader delta_neutral_contract = delta_neutral_contract_reader
reader contract = contract_reader
reader contract_details = contract_details_reader
reader execution = execution_reader
reader execution_filter = execution_filter_reader
reader tag_value = tag_value_reader
reader order_combo_leg = order_combo_leg_reader
reader order = order_reader
reader order_state = order_state_reader
reader hist_request = hist_request_reader
reader acc_status_request = acc_status_request_reader
reader place_order = place_order_reader

tables-agree : (t : Table) → agrees (writer t) (reader t) ≡ true
unfolding writer reader agrees distinct all_listed all_fit has_attr has_member listed same_field
    bytes text_eq combo_leg_writer combo_leg_reader delta_neutral_contract_writer
    delta_neutral_contract_reader contract_writer contract_reader contract_details_writer
    contract_details_reader execution_writer execution_reader execution_filter_writer
    execution_filter_reader tag_value_writer tag_value_reader order_combo_leg_writer
    order_combo_leg_reader order_writer order_reader order_state_writer order_state_reader
    hist_request_writer hist_request_reader acc_status_request_writer acc_status_request_reader
    place_order_writer place_order_reader
tables-agree combo_leg = refl
tables-agree delta_neutral_contract = refl
tables-agree contract = refl
tables-agree contract_details = refl
tables-agree execution = refl
tables-agree execution_filter = refl
tables-agree tag_value = refl
tables-agree order_combo_leg = refl
tables-agree order = refl
tables-agree order_state = refl
tables-agree hist_request = refl
tables-agree acc_status_request = refl
tables-agree place_order = refl

-- For each of these structs: what is written into a node without attributes, whether defaults are
-- skipped or not, is read back. With the laws of libxml2 and the C library, if each member is in the
-- range of its type, and each double one that its ten digits give back and that does not equal the
-- default without being it, then every attribute member has its value again.
pub read-write :
    (lib : XmlLib) (laws : XmlLaws lib) (table : Table) (skip : Bool) (dflt s : Struct)
    (x : lib.Node)
    → ((b : Text) → lib.get_prop b x ≡ none)
    → All (λ w. IsFor lib w.kind (s w.member) (dflt w.member)) (writer table)
    → All
        (λ w.
          read lib (reader table) (write lib skip dflt (writer table) s x) dflt w.member
          ≡ s w.member)
        (writer table)
unfolding agrees
read-write lib laws table skip dflt s x bare good =
    let ok = tables-agree table in
    read_members lib laws skip dflt s (writer table) (reader table) (writer table) x ok bare
      (λ w l. l) (ground (arith, ok)) good
