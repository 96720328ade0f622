-- ===== src/Plugin.antt =====
-- packet-fast.c: what the plug-in does with a packet that it has not seen, without the display.
-- Wireshark's lists of trees are one list of pairs, with the latest message at the end.
pub mod Packet
pub mod Text
pub mod Digits
pub mod DecimalText
pub mod Display
pub mod Fits
pub mod Chain
pub mod Faultless
pub mod Leaves
pub mod Made
pub mod Defined
pub mod Displayed
pub mod EndToEnd
use Prim.Native.String.{String}
use fast_wireshark.Base.{
  ℕ, zero, suc, ◌-◌, ◌^◌, Bool, true, false, ◌||◌, List, [], ◌∷◌, ◌++◌, Option, none, some, Eq,
  ◌==◌, if◌then◌else◌,
}
use fast_wireshark.Field.{FieldTypeIdentifier, FieldOperatorIdentifier, Machine, u32, set_u32}
use fast_wireshark.Position.{
  DissectPosition, FieldData, empty, err_d, shift_bytes, basic_dissect_pmap,
}
use fast_wireshark.Template.{FieldType, TNode, TNodes, node, create_field}
use fast_wireshark.Template
use fast_wireshark.Dissect.Node.{Store, DNode, DNodes, dnode}
use fast_wireshark.Dissect.Message.{Message, dissect_fast_bytes}
use fast_wireshark.Dictionaries.{
  State, get_dictionary_value, set_dictionary_value, clear_dictionaries,
}
use fast_wireshark.Dictionaries.Table.{HashTable}

-- `ProtocolImplem`.
pub data ProtocolImplem : Type 0 where
  generic cme umdf moex : ProtocolImplem

-- The bytes in front of the messages of a packet.
abbrev pub header_offset : ProtocolImplem → ℕ
header_offset generic = 0
header_offset cme = 5
header_offset umdf = 10
header_offset moex = 4

abbrev pub resets_dictionaries : ProtocolImplem → Bool
resets_dictionaries generic = false
resets_dictionaries _ = true

-- The template and the data of each message, in order, and what the loop changes.
pub record PacketData (S : Type 0) : Type 0 where
  pub position : DissectPosition
  pub template_id : ℕ
  pub store : S
  pub trees : List (TNode × DNode)
  pub fault : Bool

abbrev pub fdata_of : DNode → FieldData
fdata_of (dnode fdata children) = fdata

abbrev pub named : TNode → String → ℕ → TNodes → TNode
named (node f ts) name id children = node (record f { name = some name; id = id }) children

-- The template for a message whose template is not known, with its identifier.
unfoldable pub error_template : ℕ → ℕ → TNode
unfolding create_field
error_template fresh_tid id =
    named (create_field fresh_tid FieldTypeIdentifier.uint32 FieldOperatorIdentifier.copy)
      "Error Template" id
      (Template.cons
        (named
          (create_field fresh_tid FieldTypeIdentifier.ascii_string
            FieldOperatorIdentifier.no_operator)
          "Error Message" 0 Template.nil)
        Template.nil)

-- The data for it.
unfoldable pub error_data : FieldData → DNode
unfolding err_d
error_data junk =
    dnode
      (record { start = 0; nbytes = 0; status = empty; value = set_u32 junk.value (2 ^ 32 - 1) })
      (DNodes.cons (dnode (err_d 9 (record junk { start = 0; nbytes = 0 })) DNodes.nil) DNodes.nil)

abbrev pub is_none : Option (List ℕ) → Bool
is_none none = true
is_none (some bits) = false

-- The position behind the header of a packet of `nbytes` bytes at an address.
unfoldable pub first_position : ProtocolImplem → DissectPosition → ℕ → ℕ → DissectPosition
unfolding shift_bytes
first_position flavor stacked address nbytes =
    shift_bytes (record stacked {
      offjmp = header_offset flavor;
      offset = 0;
      nbytes = nbytes;
      bytes = address;
    })

module _ (m : Machine) (junk : FieldData) (fresh_tid : ℕ) {S : Type 0} (st : Store S)
    (templates : ℕ → Option TNode) where
  -- What follows `dissect_fast_bytes` in a round, by the template that it returns. `no_pmap` says
  -- that it returned before `data->data` was set, which the code reads: that is a fault.
  abbrev pub keep_message :
      List (TNode × DNode) → Bool → Bool → Message S → Option TNode → PacketData S
  keep_message trees fault no_pmap r (some tmpl) = record {
    position = r.position;
    template_id = r.template_id;
    store = r.store;
    trees = trees ++ ((tmpl, r.parent) ∷ []);
    fault = fault || r.fault;
  }
  keep_message trees fault no_pmap r none = record {
    position = record r.position { nbytes = 0 };
    template_id = r.template_id;
    store = r.store;
    trees =
        trees ++ ((error_template fresh_tid (u32 (fdata_of r.parent).value), error_data junk) ∷ []);
    fault = fault || no_pmap;
  }

  -- One round of the loop over the messages. `junk` is what a new node holds.
  unfoldable pub message_round : PacketData S → PacketData S
  unfolding dissect_fast_bytes basic_dissect_pmap error_template error_data
  message_round s =
      let r = dissect_fast_bytes m junk st templates s.template_id s.position junk s.store in
      keep_message s.trees s.fault (is_none (basic_dissect_pmap m s.position).pmap) r r.template

  -- The loop, which ends where no bytes are left; `none` where there is no fuel. At a fault the
  -- program ends.
  unfoldable pub packet_loop : ℕ → PacketData S → Option (PacketData S)
  unfolding message_round
  packet_loop zero s = if s.fault || s.position.nbytes == 0 then some s else none
  packet_loop (suc fuel) s =
      let rest = packet_loop fuel (message_round s) in
      if s.fault || s.position.nbytes == 0 then some s else rest

-- The dictionaries of one conversation, as the dissector sees them.
abbrev pub conversation_store :
    (h : HashTable) (Address : Type 0) (e : Eq Address)
    → Machine
    → Address
    → Address
    → Store (State h Address e)
conversation_store h Address e m src dest = record {
  get = λ ftype fdata st. get_dictionary_value h Address e m ftype fdata src dest st;
  set = λ ftype fdata st. set_dictionary_value h Address e m ftype fdata src dest st;
}

module _ (h : HashTable) (Address : Type 0) (e : Eq Address) (m : Machine) (junk : FieldData)
    (fresh_tid : ℕ) (templates : ℕ → Option TNode) where
  abbrev pub reset : ProtocolImplem → Address → Address → State h Address e → State h Address e
  reset flavor src dest st =
      if resets_dictionaries flavor then clear_dictionaries h Address e st src dest else st

  -- The dissection of a packet, `nbytes` bytes from `address` on: the loop and the reset behind it,
  -- which a program that has ended at a fault does not reach.
  -- `stacked` is what the position on the stack holds before. A round takes a byte at least, so
  -- that `nbytes` rounds are enough where the header is no longer than the packet.
  unfoldable pub dissect_packet :
      ProtocolImplem
      → (src dest : Address) → (stacked : DissectPosition) → (address nbytes template_id : ℕ)
      → State h Address e
      → Option (PacketData (State h Address e))
  unfolding packet_loop first_position
  dissect_packet flavor src dest stacked address nbytes template_id st =
      let store = conversation_store h Address e m src dest in
      elim (packet_loop m junk fresh_tid store templates nbytes (record {
        position = first_position flavor stacked address nbytes;
        template_id = template_id;
        store = st;
        trees = [];
        fault = false;
      })) [
        | none ↦ none
        | some s ↦
            some (record s { store = if s.fault then s.store else reset flavor src dest s.store })
      ]
