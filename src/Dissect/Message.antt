-- ===== src/Dissect/Message.antt =====
-- dissect.c: `dissect_fast_bytes`, a whole message.
use fast_wireshark.Base.{
  ℕ, ◌+◌, ◌-◌, ◌%◌, ◌^◌, Bool, false, List, Option, none, some, ◌==◌, if◌then◌else◌,
}
use fast_wireshark.Field.{Machine, u32}
use fast_wireshark.Position.{
  DissectPosition, FieldData, empty, dissect_shift_pmap, basic_dissect_pmap, basic_dissect_uint32,
}
use fast_wireshark.Template.{TNode, TNodes, node}
use fast_wireshark.Dissect.Node.{Store, DNode, DNodes, dnode}
use fast_wireshark.Dissect.Tree.{dissector_walk}

-- `template` is the result; `template_id` is the static variable, kept from one message to the next.
pub record Message (S : Type 0) : Type 0 where
  pub template : Option TNode
  pub template_id : ℕ
  pub position : DissectPosition
  pub parent : DNode
  pub store : S
  pub fault : Bool

abbrev pub children_of : TNode → TNodes
children_of (node ftype children) = children

-- `templates` looks an identifier up in the table of templates.
module _ (m : Machine) (junk : FieldData) {S : Type 0} (st : Store S)
    (templates : ℕ → Option TNode) where
  -- The template identifier: read where its presence bit is set, else the last one.
  unfoldable pub read_template_id :
      ℕ → DissectPosition → FieldData → ℕ × DissectPosition × FieldData
  unfolding dissect_shift_pmap basic_dissect_uint32
  read_template_id template_id position fdata =
      let (bit, position') = dissect_shift_pmap position in
      let (position2, fdata') = basic_dissect_uint32 m position' fdata in
      if bit == 0 then (template_id, position', fdata) else (u32 fdata'.value, position2, fdata')

  unfoldable pub walk_message : Option TNode → ℕ → ℕ → DissectPosition → FieldData → S → Message S
  unfolding dissector_walk
  walk_message none start template_id position fdata s = record {
    template = none;
    template_id = template_id;
    position = position;
    parent = dnode fdata DNodes.nil;
    store = s;
    fault = false;
  }
  walk_message (some tmpl) start template_id position fdata s =
      let w = dissector_walk m junk st (children_of tmpl) (record {
        position = position;
        children = DNodes.nil;
        last = none;
        store = s;
        fault = false;
      }) in
      record {
        template = some tmpl;
        template_id = template_id;
        position = w.position;
        parent =
            dnode (record fdata { nbytes = (w.position.offset + 2 ^ 32 - start) % 2 ^ 32 })
              w.children;
        store = w.store;
        fault = w.fault;
      }

  -- What follows `basic_dissect_pmap` in `dissect_fast_bytes`, by `position->pmap`. `parent` has no
  -- children yet.
  unfoldable pub message_at : Option (List ℕ) → ℕ → DissectPosition → FieldData → S → Message S
  unfolding read_template_id walk_message
  message_at none template_id p parent s = record {
    template = none;
    template_id = template_id;
    position = p;
    parent = dnode parent DNodes.nil;
    store = s;
    fault = false;
  }
  message_at (some bits) template_id p parent s =
      let fdata : FieldData = record {
        start = p.offset;
        nbytes = 0;
        status = empty;
        value = junk.value;
      } in
      let (id, p', fdata') = read_template_id template_id p fdata in
      walk_message (templates id) p.offset id p' fdata' s

  unfoldable pub dissect_fast_bytes : ℕ → DissectPosition → FieldData → S → Message S
  unfolding basic_dissect_pmap message_at
  dissect_fast_bytes template_id position parent s =
      let p = basic_dissect_pmap m position in message_at p.pmap template_id p parent s
