-- ===== src/Plugin/Packet/Taking.antt =====
-- dissect.c: what a message takes of its packet, and its faults.
use fast_wireshark.Base.{
  ℕ, ◌+◌, ◌≤◌, ◌<◌, ◌≡◌, refl, false, List, Option, none, some, ◌==◌, ◌⊎◌, inl, inr, Bool-cases,
  arith, ◌-◌,
}
use native.Mathlib.Decide.{ℕ_discrete}
use fast_wireshark.Decode.Stop.{IsBytes, count_stop_bit_encoded-Counted}
use fast_wireshark.Parser.Marked.{WellShaped}
use fast_wireshark.Plugin.Faultless.{dissector_walk-fault}
use fast_wireshark.Decode.{number_decoded_bits, count_stop_bit_encoded}
use fast_wireshark.Field.{Machine}
use fast_wireshark.Position.{
  DissectPosition, FieldData, bytes_at, basic_dissect_pmap, basic_dissect_uint32,
  dissect_shift_pmap, find_field, shift_bytes,
}
use fast_wireshark.Position.Window.{InPacket, find_field-le, basic_dissect_pmap-InPacket}
use fast_wireshark.Template.{TNode, node}
use fast_wireshark.Dissect.Node.{Store}
use fast_wireshark.Dissect.Moves.{
  Moves, Good, Moves-trans, Moves-Good, find_shift-Moves, shift_pmap-Moves,
}
use fast_wireshark.Dissect.TreeSafety.{NoVectorsBelow, dissector_walk-Moves}
use fast_wireshark.Dissect.Message.{
  Message, read_template_id, walk_message, message_at, dissect_fast_bytes,
}
use fast_wireshark.Plugin.{is_none}

-- A template, if there is one, has no byte vector and no unicode string.
abbrev pub NoVectorsIn : Option TNode → Type 0
NoVectorsIn none = Unit {0}
NoVectorsIn (some (node f ts)) = NoVectorsBelow ts

module _ (m : Machine) (byte : IsBytes m.mem) {end total : ℕ} where
  -- A presence map, where there is one, takes at least a byte.
  pub pmap-consumes :
      (p : DissectPosition)
      → InPacket end total p
      → ((basic_dissect_pmap m p).pmap ≡ none) ⊎ ((basic_dissect_pmap m p).nbytes < p.nbytes)
  unfolding basic_dissect_pmap find_field shift_bytes number_decoded_bits
  pmap-consumes p inside =
      let n = count_stop_bit_encoded p.nbytes (bytes_at m p) in
      let le : n ≤ p.nbytes = find_field-le m byte p in
      elim (Bool-cases (number_decoded_bits n == 0)) [
        | inl none_found ↦ rw none_found (inl refl)
        | inr found ↦ rw found (inr (ground (arith, found, le, inside)))
      ]

  -- Where the packet's last byte has its stop bit, there is a presence map before its end.
  pub pmap_present :
      (p : DissectPosition)
      → InPacket end total p
      → 128 ≤ m.mem (end - 1)
      → 0 < p.nbytes
      → is_none (basic_dissect_pmap m p).pmap ≡ false
  unfolding basic_dissect_pmap find_field shift_bytes number_decoded_bits
  pmap_present p inside last more =
      let n = count_stop_bit_encoded p.nbytes (bytes_at m p) in
      let le : n ≤ p.nbytes = find_field-le m byte p in
      let c = count_stop_bit_encoded-Counted (bytes_at m p) (λ i. byte (p.bytes + i)) p.nbytes in
      let e : p.bytes + (p.nbytes - 1) ≡ end - 1 = omega (arith, inside, more) in
      let stop : 128 ≤ m.mem (p.bytes + (p.nbytes - 1)) = rw e last in
      elim (ℕ_discrete n 0) [
        | yes none_found ↦ absurd (
            omega (
              arith,
              stop,
              c.overrun none_found (p.nbytes - 1) (omega arith) (omega (arith, more)),
            ))
        | no found ↦
            let some_bits : (number_decoded_bits n == 0) ≡ false =
              ground (arith, found, le, inside) in
            rw some_bits refl
      ]

module _ (m : Machine) (junk : FieldData) {S : Type 0} (st : Store S) (templates : ℕ → Option TNode)
    (safe : (id : ℕ) → NoVectorsIn (templates id))
    (shaped : (id : ℕ) → WellShaped (templates id)) where
  walk_message-fault :
      (tmpl : Option TNode)
      → NoVectorsIn tmpl
      → WellShaped tmpl
      → (first id : ℕ) (p : DissectPosition) (fdata : FieldData) (s : S)
      → (walk_message m junk st templates tmpl first id p fdata s).fault ≡ false
  unfolding walk_message
  walk_message-fault none v w first id p fdata s = refl
  walk_message-fault (some (node f ts)) v (tid, w) first id p fdata s =
      dissector_walk-fault m junk st tid ts w v _

  message_at-fault :
      (o : Option (List ℕ)) (old : ℕ) (p : DissectPosition) (parent : FieldData) (s : S)
      → (message_at m junk st templates o old p parent s).fault ≡ false
  unfolding message_at
  message_at-fault none old p parent s = refl
  message_at-fault (some bits) old p parent s = walk_message-fault _ (safe _) (shaped _) _ _ _ _ s

  -- A message, with a template or without, dereferences no null pointer.
  pub dissect_fast_bytes-fault :
      (old : ℕ) (p : DissectPosition) (parent : FieldData) (s : S)
      → (dissect_fast_bytes m junk st templates old p parent s).fault ≡ false
  unfolding dissect_fast_bytes
  dissect_fast_bytes-fault old p parent s =
      message_at-fault (basic_dissect_pmap m p).pmap old (basic_dissect_pmap m p) parent s

module _ (m : Machine) (byte : IsBytes m.mem) (junk : FieldData) {S : Type 0} (st : Store S)
    (templates : ℕ → Option TNode) (safe : (id : ℕ) → NoVectorsIn (templates id))
    (end total : ℕ) where
  template_id-Moves :
      (old : ℕ) (p : DissectPosition) (fdata : FieldData)
      → Good end total p
      → Moves end total p (read_template_id m junk st templates old p fdata).1
  unfolding read_template_id basic_dissect_uint32
  template_id-Moves old p fdata g =
      let (bit, p') = dissect_shift_pmap p in
      let h = shift_pmap-Moves p g in
      elim (Bool-cases (bit == 0)) [
        | inl kept ↦ rw kept h
        | inr own ↦ rw own (Moves-trans h (find_shift-Moves m p' byte (Moves-Good h)))
      ]

  walk_message-Moves :
      (tmpl : Option TNode)
      → NoVectorsIn tmpl
      → (first id : ℕ) (p : DissectPosition) (fdata : FieldData) (s : S) → Good end total p
      → Moves end total p (walk_message m junk st templates tmpl first id p fdata s).position
  unfolding walk_message
  walk_message-Moves none v first id p fdata s g = g
  walk_message-Moves (some (node f ts)) v first id p fdata s g =
      dissector_walk-Moves end total m junk S st ts _ byte v g.in_packet g.has_pmap

  message_at-Moves :
      (bits : List ℕ) (old : ℕ) (p : DissectPosition) (parent : FieldData) (s : S)
      → Good end total p
      → Moves end total p (message_at m junk st templates (some bits) old p parent s).position
  unfolding message_at
  message_at-Moves bits old p parent s g =
      let h = template_id-Moves old p _ g in
      Moves-trans h (walk_message-Moves _ (safe _) _ _ _ _ s (Moves-Good h))

  -- A message, with a template or without: in the first case it stays in the packet and takes a
  -- byte at least.
  abbrev pub Taken : DissectPosition → Message S → Type 0
  Taken p r = (r.template ≡ none) ⊎ (InPacket end total r.position × (r.position.nbytes < p.nbytes))

  message_at-Taken :
      (p q : DissectPosition) (o : Option (List ℕ)) (old : ℕ) (parent : FieldData) (s : S)
      → Good end total q
      → (o ≡ none) ⊎ (q.nbytes < p.nbytes)
      → Taken p (message_at m junk st templates o old q parent s)
  unfolding message_at
  message_at-Taken p q none old parent s g less = inl refl
  message_at-Taken p q (some bits) old parent s g (inl e) = cc
  message_at-Taken p q (some bits) old parent s g (inr less) =
      let h = message_at-Moves bits old q parent s g in
      inr (h.in_packet, omega (arith, h.in_packet.at_total, g.in_packet.at_total, h.forward, less))

  pub dissect_fast_bytes-Taken :
      (old : ℕ) (p : DissectPosition) (parent : FieldData) (s : S)
      → InPacket end total p
      → Taken p (dissect_fast_bytes m junk st templates old p parent s)
  unfolding dissect_fast_bytes
  dissect_fast_bytes-Taken old p parent s inside =
      let (w, h, z) = basic_dissect_pmap-InPacket m p byte inside in
      message_at-Taken p (basic_dissect_pmap m p) (basic_dissect_pmap m p).pmap old parent s
        (record { in_packet = w; has_pmap = h; forward = omega arith })
        (pmap-consumes m byte p inside)
