-- ===== src/Runs/CompareRuns.antt =====
-- Two plan files, the export of a packet, and the arguments of a test.
use Prim.Native.String.{String}
use fast_wireshark.Base.{
  ℕ, ◌+◌, ◌%◌, ◌^◌, ◌≡◌, refl, ◌↔◌, Bool, true, ◌&&◌, List, [], ◌∷◌, ◌++◌, length, map, Option,
  none, some, leb, if◌then◌else◌, arith,
}
use fast_wireshark.Compare.{Text, codes, text_eq, XmlNode, XmlNodes, element, nil, cons}
use fast_wireshark.Compare.Plan.{equivalent, equiv_plan_files}
use fast_wireshark.Compare.Equivalence.{Info, relevant, equiv_plan_files_lem}
use fast_wireshark.Compare.Writer.{TextWriter}
use fast_wireshark.Compare.Expected.{
  Event, start, attribute, end, finish, serialize_node, Succeeds, is_some,
}
use fast_wireshark.Compare.Pdml.{generate_plan_from_pdml}
use fast_wireshark.Compare.Document.{plans, tids, concat_map, fast_packets_of}
use fast_wireshark.Compare.Counted.{generate_plan_from_pdml_lem}
use fast_wireshark.Compare.Options.{Options, arguments, parsed, initial}
use fast_wireshark.Compare.Flow.{Action, compare, generate_plan, main, run_session, start as begin}
use fast_wireshark.Compare.Success.{all_well, plan_name, main_lem}

-- `xmlStrcasecmp`, by letters in lower case.
abbrev lower : ℕ → ℕ
lower c = if leb b'A' c && leb c b'Z' then c + 32 else c

abbrev fold : Text → Text
fold = map lower

abbrev strcase_eq : Text → Text → Bool
strcase_eq a b = text_eq (fold a) (fold b)

text_eq_iff : (a b : Text) → (text_eq a b ≡ true) ↔ (a ≡ b)
text_eq_iff [] [] = ground arith
text_eq_iff [] (b ∷ t) = ground arith
text_eq_iff (a ∷ s) [] = ground arith
text_eq_iff (a ∷ s) (b ∷ t) = ground (arith, text_eq_iff s t)

abbrev bare : Text → Option Text
bare asked = none

abbrev with : String → String → (Text → Option Text) → Text → Option Text
with name value others asked =
    if text_eq asked (codes name) then some (codes value) else others asked

-- A message with a field, once with a comment in front of it.
abbrev plan_file : XmlNodes
plan_file =
    cons
      (element (codes "Message") 2 (with "value" "7" bare)
        (cons (element (codes "uInt32") 3 (with "value" "12" bare) nil) nil))
      nil

abbrev expected_file : XmlNodes
expected_file = cons (element (codes "comment") 1 bare nil) (
    cons
      (element (codes "message") 2 (with "value" "7" bare) (
        cons (element (codes "text") 2 bare nil)
          (cons (element (codes "uint32") 3 (with "value" "12" bare) nil) nil)))
      nil)

equiv_plan_files_lem_example :
    (equiv_plan_files strcase_eq text_eq (some plan_file) (some expected_file) ≡ equivalent)
    ↔ (relevant strcase_eq text_eq fold plan_file ≡ relevant strcase_eq text_eq fold expected_file)
equiv_plan_files_lem_example =
    equiv_plan_files_lem strcase_eq text_eq fold (λ a b. text_eq_iff (fold a) (fold b)) text_eq_iff
      (some plan_file) (some expected_file)

files_match : equiv_plan_files strcase_eq text_eq (some plan_file) (some expected_file) ≡ equivalent
unfolding equiv_plan_files
files_match = refl

-- The events that are written, one after the other.
abbrev events_writer : TextWriter (List Event)
events_writer = record {
  start_element = λ name w. (w ++ (start name ∷ []), true);
  write_attribute = λ name value w. (w ++ (attribute name value ∷ []), true);
  end_element = λ w. (w ++ (end ∷ []), true);
  end_document = λ w. (w ++ (finish ∷ []), true);
}

abbrev events_succeed : Succeeds events_writer
events_succeed = record {
  events = λ w. w;
  started = λ name w. refl;
  start_events = λ name w. refl;
  ended = λ w. refl;
  end_events = λ w. refl;
  attributed = λ name value w. refl;
  attribute_events = λ name value w. refl;
  finish_events = λ w. refl;
}

-- A packet with one message that has one field.
abbrev number_field : XmlNode
number_field =
    element (codes "field") 4 (with "name" "fast.uInt32" (with "showname" "size: 12" bare)) nil

abbrev message_field : XmlNode
message_field =
    element (codes "field") 3 (with "name" "fast.tid" (with "showname" "order: 7" bare))
      (cons number_field nil)

abbrev export : XmlNode
export = element (codes "pdml") 1 bare (
    cons
      (element (codes "packet") 2 bare
        (cons (element (codes "proto") 3 (with "name" "fast" bare) (cons message_field nil)) nil))
      nil)

generate_plan_from_pdml_lem_example :
    let s = generate_plan_from_pdml strcase_eq text_eq events_writer (some (some export)) [] in
    let packets = fast_packets_of strcase_eq text_eq export in
    let messages = plans strcase_eq text_eq (concat_map (tids strcase_eq text_eq) packets) in
    (s.success ≡ is_some messages)
    × ((is : List Info)
        → messages ≡ some is
        → (s.writer
            ≡ [] ++ ((start (codes "Plan") ∷ concat_map serialize_node is) ++ (finish ∷ [])))
          × (s.fast_packets ≡ length packets % 2 ^ 32))
generate_plan_from_pdml_lem_example =
    generate_plan_from_pdml_lem strcase_eq text_eq events_writer events_succeed export []

one_packet :
    (generate_plan_from_pdml strcase_eq text_eq events_writer (some (some export)) []).writer
    ≡ start (codes "Plan")
      ∷ start (codes "Message")
      ∷ attribute (codes "value") (codes "7")
      ∷ start (codes "uInt32")
      ∷ attribute (codes "value") (codes "12")
      ∷ end
      ∷ end
      ∷ finish
      ∷ []
unfolding generate_plan_from_pdml
one_packet = refl

-- Two files that cannot be parsed are taken for equal.
no_files_match : equiv_plan_files strcase_eq text_eq none none ≡ equivalent
unfolding equiv_plan_files
no_files_match = refl

abbrev atoi : Text → ℕ
atoi text = 5000

abbrev given_arguments : List Text
given_arguments =
    codes "tmpl"
    ∷ codes "t.xml"
    ∷ codes "runner"
    ∷ codes "r.jar"
    ∷ codes "send"
    ∷ codes "p.xml"
    ∷ []

abbrev given_options : Options
given_options = record initial {
  template_filename = some (codes "t.xml");
  plan_runner_jar = some (codes "r.jar");
  send_filename = some (codes "p.xml");
  expect_filename = some (codes "p.xml");
}

parsed_options : arguments atoi given_arguments ≡ parsed given_options
unfolding arguments
parsed_options = refl

-- Every step goes well.
abbrev answer : Action → Bool
answer a = true

main_lem_example :
    let done = main answer given_options in
    let session = run_session answer given_options (codes "t.xml") (begin answer given_options) in
    (done.goodp ≡ all_well answer done.actions)
    × (done.goodp ≡ true
        → (pdml : Text) × (after : List Action) × ((session.pdml ≡ some pdml)
            × (done.actions
                ≡ session.actions
                  ++ (generate_plan pdml (plan_name answer given_options session)
                      ∷ compare (plan_name answer given_options session) (codes "p.xml")
                      ∷ after))
            × (answer (generate_plan pdml (plan_name answer given_options session)) ≡ true)
            × (answer (compare (plan_name answer given_options session) (codes "p.xml")) ≡ true)))
main_lem_example =
    main_lem answer atoi given_arguments given_options (codes "t.xml") (codes "p.xml")
      parsed_options refl refl
