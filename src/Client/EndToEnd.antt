-- ===== src/Client/EndToEnd.antt =====
-- A message that the client encodes is taken up by the dissector.

use fast_wireshark.Base.{
  ℕ, ◌^◌, ◌≤◌, ◌<◌, ◌≡◌, refl, sym, ap, ◌∙◌, List, [], ◌∷◌, ◌++◌, length, set, drop, Option, some,
  some_eq, if◌then◌else◌, Bool-cases, inl, inr, arith,
}
use fast_wireshark.Decode.Stop.{IsBytes}
use fast_wireshark.Decode.Text.{Reads}
use fast_wireshark.Encode.{encode_pmap, encode_uint32, mark_last}
use fast_wireshark.Encode.Unsigned.{encode_uint64_total}
use fast_wireshark.Field.{Machine}
use fast_wireshark.Position.{DissectPosition, FieldData, basic_dissect_pmap, empty}
use fast_wireshark.Position.Window.{InPacket}
use fast_wireshark.Template.{TNode}
use fast_wireshark.Dissect.Node.{Store}
use fast_wireshark.Dissect.Message.{read_template_id, walk_message, message_at, dissect_fast_bytes}
use fast_wireshark.Client.{FastMessage, encode_fast}
use fast_wireshark.Client.Identifier.{AtFields, IdRead, with_id, no_id}

set_first : (pmap : List ℕ) (b : ℕ) → 0 < length pmap → set pmap 0 b ≡ b ∷ drop 1 pmap
set_first [] b h = absurd (omega arith)
set_first (x ∷ xs) b h = refl

module _ (m : Machine) (byte : IsBytes m.mem) (junk : FieldData) {S : Type 0} (st : Store S)
    (templates : ℕ → Option TNode) where
  -- The message's own identifier, or the one that was kept.
  read_id :
      (p : DissectPosition) {end total : ℕ} (inside : InPacket end total p) (old : ℕ)
      (fdata : FieldData) (rest msg packet : List ℕ) (r : Reads m.mem p.bytes packet)
      (fits : length packet ≤ p.nbytes) (fmsg : FastMessage)
      → fmsg.msg ≡ msg
      → drop 1 fmsg.pmap ≡ rest
      → 0 < length fmsg.pmap
      → fmsg.tid < 2 ^ 32
      → encode_fast fmsg ≡ some packet
      → IdRead m byte junk st templates p inside old fdata rest msg packet r fits
          (if fmsg.tidp then fmsg.tid else old)
  unfolding encode_fast encode_uint32
  read_id p inside old fdata rest msg packet r fits fmsg e f pos small run =
      elim (Bool-cases fmsg.tidp) [
        | inl own ↦
            let head = encode_pmap (1 ∷ rest) [] in
            let (groups_list, w, is_groups, number, some_groups, most) =
              encode_uint64_total fmsg.tid head (omega arith) in
            let first : set fmsg.pmap 0 1 ≡ 1 ∷ rest =
              set_first fmsg.pmap 1 pos ∙ ap (λ t. 1 ∷ t) f in
            let done : encode_fast fmsg ≡ some ((head ++ mark_last groups_list) ++ msg) =
              rw (own, first, w, e) refl in
            rw own (
              with_id m byte junk st templates p inside old fdata rest msg packet r fits groups_list
                fmsg.tid is_groups number small some_groups (some_eq (sym done ∙ run)))
        | inr kept ↦
            let first : set fmsg.pmap 0 0 ≡ 0 ∷ rest =
              set_first fmsg.pmap 0 pos ∙ ap (λ t. 0 ∷ t) f in
            let done : encode_fast fmsg ≡ some (encode_pmap (0 ∷ rest) [] ++ msg) =
              rw (kept, first, e) refl in
            rw kept (
              no_id m byte junk st templates p inside old fdata rest msg packet r fits
                (some_eq (sym done ∙ run)))
      ]

  message_at-walk :
      (bits : List ℕ) (old id : ℕ) (p q : DissectPosition) (parent fdata' : FieldData) (s : S)
      → read_template_id m junk st templates old p
          (record { start = p.offset; nbytes = 0; status = empty; value = junk.value })
        ≡ (id, q, fdata')
      → message_at m junk st templates (some bits) old p parent s
        ≡ walk_message m junk st templates (templates id) p.offset id q fdata' s
  unfolding message_at
  message_at-walk bits old id p q parent fdata' s e =
      ap (λ t. walk_message m junk st templates (templates t.0) p.offset t.0 t.1 t.2 s) e

  -- A message that `encode_fast` encodes is taken up by `dissect_fast_bytes`: where the packet
  -- is in memory at the position and no longer than the bytes left, the presence map is not
  -- empty and the template identifier is below 2 ^ 32, the template is looked up by the
  -- message's own identifier, or by the one kept from before where the message has none, and the
  -- walk over its fields starts exactly at the encoded fields, with the entries of the presence
  -- map behind the first one next.
  pub dissect_fast_bytes-encode_fast :
      (p : DissectPosition) {end total : ℕ} (old : ℕ) (fmsg : FastMessage) (packet : List ℕ)
      (parent : FieldData) (s : S)
      → InPacket end total p
      → 0 < length fmsg.pmap
      → fmsg.tid < 2 ^ 32
      → encode_fast fmsg ≡ some packet
      → Reads m.mem p.bytes packet
      → length packet ≤ p.nbytes
      → (q : DissectPosition) × (start : ℕ) × (fdata : FieldData) × AtFields m p
          (drop 1 fmsg.pmap)
          fmsg.msg
          packet
          q
        × (dissect_fast_bytes m junk st templates old p parent s
            ≡ walk_message m junk st templates
                (templates (if fmsg.tidp then fmsg.tid else old))
                start
                (if fmsg.tidp then fmsg.tid else old)
                q
                fdata
                s)
  unfolding dissect_fast_bytes
  dissect_fast_bytes-encode_fast p old fmsg packet parent s inside pos small run r fits =
      let q0 = basic_dissect_pmap m p in
      let fdata : FieldData = record {
        start = q0.offset;
        nbytes = 0;
        status = empty;
        value = junk.value;
      } in
      let (q, fdata', id, (bits, has), at) =
        read_id p inside old fdata (drop 1 fmsg.pmap) fmsg.msg packet r fits fmsg refl refl pos
          small run in
      (
        q,
        q0.offset,
        fdata',
        at,
        ap (λ o. message_at m junk st templates o old q0 parent s) has
            ∙ message_at-walk bits old (if fmsg.tidp then fmsg.tid else old) q0 q parent fdata' s
                id,
      )
