-- ===== src/Runs/PluginRuns.antt =====
-- packet-fast.c on packets with two messages and with none, and the texts of decimals.
use fast_wireshark.Base.{
  ℕ, ◌-◌, ◌^◌, ◌≡◌, refl, Bool, true, List, [], ◌∷◌, Option, none, some, nat_eq, ◌==◌,
  if◌then◌else◌, arith,
}
use fast_wireshark.Decode.{number_decoded_bits, count_stop_bit_encoded, decode_pmap, decode_uint32}
use fast_wireshark.Dissect.Tree.{dissect_fn_map, apply_operator}
use fast_wireshark.Field.{FieldTypeIdentifier, FieldOperatorIdentifier, Machine}
use fast_wireshark.Template.{TNode, node}
use fast_wireshark.Template
use fast_wireshark.Dictionaries.{State}
use fast_wireshark.Plugin.{cme, generic, PacketData, dissect_packet, fdata_of}
use fast_wireshark.Plugin.Text.{digits, with_point, to_decimal, text, undefined}
use fast_wireshark.Plugin.Digits.{read_text}
use fast_wireshark.Plugin.DecimalText.{to_decimal_reads, to_decimal_overrun}
use fast_wireshark.Dissect.Node.{DNode}
use fast_wireshark.Runs.DictionaryRuns.{lists, field}
use fast_wireshark.Runs.Data.{machine, start, blank}

-- A header of five bytes, a message with the template 7, and one without an identifier.
abbrev packet : List ℕ
packet = 0 ∷ 0 ∷ 0 ∷ 0 ∷ 0 ∷ 192 ∷ 135 ∷ 130 ∷ 128 ∷ 131 ∷ []

abbrev m : Machine
m = machine packet

abbrev templates : ℕ → Option TNode
templates id =
    if id == 7
    then some (
        node (field FieldTypeIdentifier.uint32) (
          Template.cons
            (node
              (record (field FieldTypeIdentifier.uint32) {
                op = FieldOperatorIdentifier.no_operator;
              })
              Template.nil)
            Template.nil))
    else none

-- The template identifier and the size of each message.
abbrev shapes : List (TNode × DNode) → List (ℕ × ℕ)
shapes [] = []
shapes ((node f ts, d) ∷ rest) = (f.id, (fdata_of d).nbytes) ∷ shapes rest

abbrev messages : Option (PacketData (State lists ℕ nat_eq)) → List (ℕ × ℕ)
messages none = []
messages (some s) = shapes s.trees

two_messages :
    messages (dissect_packet lists ℕ nat_eq m blank 0 templates cme 1 2 (start 0) 0 10 0 none)
    ≡ (7, 2) ∷ (7, 1) ∷ []
unfolding dissect_packet number_decoded_bits count_stop_bit_encoded decode_pmap decode_uint32
    dissect_fn_map apply_operator
two_messages = refl

-- Whether the dissection of a packet ends at a fault.
abbrev faults : List ℕ → ℕ → Option Bool
faults bytes nbytes =
    elim (dissect_packet lists ℕ nat_eq (machine bytes) blank 0 templates generic 1 2 (start 0) 0
      nbytes 0 none) [ none ↦ none | some s ↦ some s.fault ]

-- A byte without a stop bit is no presence map.
missing_pmap : faults (1 ∷ []) 1 ≡ some true
unfolding dissect_packet number_decoded_bits count_stop_bit_encoded decode_pmap decode_uint32
    dissect_fn_map apply_operator
missing_pmap = refl

-- -12.34 and 0.05, and 1200.
negative_text :
    to_decimal (2 ^ 32 - 2) (2 ^ 64 - 1234) ≡ text (b'-' ∷ b'1' ∷ b'2' ∷ b'.' ∷ b'3' ∷ b'4' ∷ [])
unfolding to_decimal digits with_point
negative_text = refl

small_text : to_decimal (2 ^ 32 - 2) 5 ≡ text (b'.' ∷ b'0' ∷ b'5' ∷ [])
unfolding to_decimal digits with_point
small_text = refl

large_text : to_decimal 2 12 ≡ text (b'1' ∷ b'2' ∷ b'0' ∷ b'0' ∷ [])
unfolding to_decimal digits with_point
large_text = refl

to_decimal_reads_example :
    (t : List ℕ) × (to_decimal (2 ^ 32 - 2) (2 ^ 64 - 1234) ≡ text t)
    × (read_text t ≡ (true, (1234, 2)))
to_decimal_reads_example =
    to_decimal_reads (2 ^ 32 - 2) (2 ^ 64 - 1234) (omega arith) (omega arith) (omega arith)
      (omega arith)

-- A mantissa of 13 digits with one of them behind the point.
to_decimal_overrun_example : to_decimal (2 ^ 32 - 1) (10 ^ 12) ≡ undefined
to_decimal_overrun_example =
    to_decimal_overrun (2 ^ 32 - 1) (10 ^ 12) (omega arith) refl (omega arith) (omega arith)
