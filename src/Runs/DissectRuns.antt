-- ===== src/Runs/DissectRuns.antt =====
-- A template with a group and a sequence on a packet.
use fast_wireshark.Base.{ℕ, ◌≡◌, refl, true, false, List, [], ◌∷◌, some, none, arith}
use fast_wireshark.Decode.Stop.{IsBytes}
use fast_wireshark.Field.{FieldTypeIdentifier, FieldOperatorIdentifier, Machine, raw}
use fast_wireshark.Position.Window.{InPacket, HasPmap}
use fast_wireshark.Template.{FieldType, TNode, TNodes, node, nil, cons}
use fast_wireshark.Dissect.Node.{Store, Walk, DNodes}
use fast_wireshark.Dissect.Tree.{dissector_walk, dissect_fn_map, apply_operator}
use fast_wireshark.Decode.{count_stop_bit_encoded, number_decoded_bits, decode_pmap, decode_uint32}
use fast_wireshark.Dissect.Moves.{Moves}
use fast_wireshark.Dissect.TreeSafety.{dissector_walk-Moves}
use fast_wireshark.Runs.Data.{from-IsBytes, machine, blank}

abbrev field : FieldTypeIdentifier → FieldOperatorIdentifier → ℕ → FieldType
field type op pmap_exists = record {
  name = none;
  id = 0;
  tid = 1;
  key = some "k";
  mandatory = true;
  type = type;
  op = op;
  has_default = false;
  value = record { word = pmap_exists; second = raw 0 };
  dictionary = none;
}

abbrev leaf : FieldTypeIdentifier → FieldOperatorIdentifier → TNode
leaf type op = node (field type op 0) nil

-- A uInt32, a group with its own presence map, and a sequence.
abbrev template : TNodes
template = cons (leaf FieldTypeIdentifier.uint32 FieldOperatorIdentifier.no_operator) (
    cons
      (node (field FieldTypeIdentifier.group FieldOperatorIdentifier.no_operator 1)
        (cons (leaf FieldTypeIdentifier.int32 FieldOperatorIdentifier.copy) nil))
      (cons
        (node (field FieldTypeIdentifier.sequence FieldOperatorIdentifier.no_operator 0) (
          cons (leaf FieldTypeIdentifier.uint32 FieldOperatorIdentifier.no_operator) (
            cons
              (node (field FieldTypeIdentifier.group FieldOperatorIdentifier.no_operator 0) (
                cons (leaf FieldTypeIdentifier.ascii_string FieldOperatorIdentifier.no_operator)
                  nil))
              nil)))
        nil))

abbrev packet : List ℕ
packet = 133 ∷ 192 ∷ 57 ∷ 69 ∷ 163 ∷ 129 ∷ 65 ∷ 194 ∷ []

-- Dictionaries that remember nothing.
abbrev forgetful : Store ℕ
forgetful = record { get = λ ftype fdata s. (false, fdata, s); set = λ ftype fdata s. s }

abbrev m : Machine
m = machine packet

m-IsBytes : IsBytes m.mem
m-IsBytes = from-IsBytes packet refl

-- At the first byte, with a presence map of one entry.
abbrev w : Walk ℕ
w = record {
  position = record {
    offjmp = 0;
    offset = 0;
    nbytes = 8;
    bytes = 0;
    pmap_len = 7;
    pmap_idx = 0;
    pmap = some (1 ∷ 0 ∷ 0 ∷ 0 ∷ 0 ∷ 0 ∷ 0 ∷ []);
  };
  children = DNodes.nil;
  last = none;
  store = 0;
  fault = false;
}

inside : InPacket 8 8 w.position
inside = record { at_end = refl; at_total = refl; small = omega arith }

mapped : HasPmap w.position
mapped = record { entries = refl; index = omega arith }

all_read : (dissector_walk m blank forgetful template w).position.offset ≡ 8
unfolding dissector_walk dissect_fn_map apply_operator count_stop_bit_encoded number_decoded_bits
    decode_pmap decode_uint32
all_read = refl

dissector_walk-Moves_example :
    Moves 8 8 w.position (dissector_walk m blank forgetful template w).position
dissector_walk-Moves_example =
    dissector_walk-Moves 8 8 m blank ℕ forgetful template w m-IsBytes
      (
        (refl, tt),
        ((refl, ((refl, tt), tt)), ((refl, ((refl, tt), ((refl, ((refl, tt), tt)), tt))), tt)),
      )
      inside mapped
