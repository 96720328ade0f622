-- ===== src/Plugin/EndToEnd.antt =====
-- packet-fast.c with parse-template.c, template.c, dictionaries.c and dissect.c: from the template
-- file and the bytes of a packet to what is displayed.
use Prim.Native.String.{String}
use fast_wireshark.Base.{ℕ, ◌≡◌, Bool, [], Option, some, nat_eq, Eq, false, Option-cases, inl, inr}
use fast_wireshark.Field.{Machine}
use fast_wireshark.Field.Conversion.{Glib}
use fast_wireshark.Position.{DissectPosition, FieldData}
use fast_wireshark.Template.{TNode, TNodes}
use fast_wireshark.Template.Table.{create_templates_table, lookup-create_templates_table}
use fast_wireshark.Parser.Templates.{Document, parse_templates_xml}
use fast_wireshark.Parser.Document.{parse_templates_xml-AllTemplates}
use fast_wireshark.Parser.Marked.{WellShaped, last_template-WellShaped}
use fast_wireshark.Dictionaries.{State}
use fast_wireshark.Dictionaries.Table.{HashTable}
use fast_wireshark.Plugin.{
  ProtocolImplem, PacketData, dissect_packet, conversation_store, packet_loop, first_position,
}
use fast_wireshark.Plugin.Display.{DisplayPreferences}
use fast_wireshark.Plugin.Displayed.{AllShown, packet_loop-AllFit, AllFit-AllShown}

module _ (h : HashTable) (Address : Type 0) (e : Eq Address) (m : Machine) (junk : FieldData)
    (fresh_tid : ℕ) (strcase_eq strcmp_eq : String → String → Bool) (g : Glib) (document : Document)
    (templates : TNodes) (old : ℕ)
    (file : (parse_templates_xml strcase_eq strcmp_eq g m fresh_tid old document).0
      ≡ some templates) where
  -- The table of the templates, in which the dissector looks.
  abbrev pub table : ℕ → Option TNode
  table id = h.lookup nat_eq (create_templates_table h templates) id

  table-WellShaped : (id : ℕ) → WellShaped (table id)
  table-WellShaped id = rw (lookup-create_templates_table h templates id) (
      last_template-WellShaped id templates (
        parse_templates_xml-AllTemplates strcase_eq strcmp_eq g m fresh_tid old document templates
          file))

  module _ (flavor : ProtocolImplem) (src dest : Address) (stacked : DissectPosition)
      (address nbytes template_id : ℕ) (st : State h Address e) (prefs : DisplayPreferences) where
    abbrev pub dissected : Option (PacketData (State h Address e))
    dissected =
        dissect_packet h Address e m junk fresh_tid table flavor src dest stacked address nbytes
          template_id st

    -- From the template file to the display: where the templates of the table come from a file
    -- that `parse_templates_xml` has read, whatever the document, the packet and the state of
    -- the dictionaries, every message of a packet that has been dissected is displayed:
    -- `display_message` gives its rows, and no null data node is dereferenced on the way.
    pub dissect_packet-AllShown :
        (s : PacketData (State h Address e)) → dissected ≡ some s → AllShown m prefs s.trees
    unfolding dissect_packet
    dissect_packet-AllShown s d =
        let store = conversation_store h Address e m src dest in
        let start : PacketData (State h Address e) = record {
          position = first_position flavor stacked address nbytes;
          template_id = template_id;
          store = st;
          trees = [];
          fault = false;
        } in
        elim (Option-cases (packet_loop m junk fresh_tid store table nbytes start)) [
          | inl none_left ↦ absurd (cc (d, none_left))
          | inr (s', run) ↦
              let trees : s.trees ≡ s'.trees = cc (d, run) in
              rw trees (
                AllFit-AllShown m prefs s'.trees (
                  packet_loop-AllFit m junk store table table-WellShaped fresh_tid nbytes start s'
                    tt run))
        ]
