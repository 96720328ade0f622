-- ===== src/Plugin/Packet.antt =====
-- packet-fast.c: the end of the loop over the messages of a packet, and its faults.
mod Taking
use fast_wireshark.Base.{ℕ, ◌+◌, ◌≤◌, ◌<◌, ◌≡◌, false, length, Option, some, ◌⊎◌, ◌-◌}
use fast_wireshark.Decode.Stop.{IsBytes}
use fast_wireshark.Field.{Machine}
use fast_wireshark.Position.{FieldData}
use fast_wireshark.Position.Window.{InPacket}
use fast_wireshark.Template.{TNode}
use fast_wireshark.Dissect.Node.{Store}
use fast_wireshark.Dissect.Message.{Message}
use fast_wireshark.Plugin.{PacketData, message_round, packet_loop}
use fast_wireshark.Parser.Marked.{WellShaped}
pub use fast_wireshark.Plugin.Packet.Taking.{NoVectorsIn}

module _ (m : Machine) (byte : IsBytes m.mem) (junk : FieldData) {S : Type 0} (st : Store S)
    (templates : ℕ → Option TNode) (safe : (id : ℕ) → NoVectorsIn (templates id))
    (shaped : (id : ℕ) → WellShaped (templates id)) (end total : ℕ) (last : 128 ≤ m.mem (end - 1))
    (fresh_tid : ℕ) where
  abbrev round : PacketData S → PacketData S
  round = message_round m junk fresh_tid st templates

  abbrev Continues : PacketData S → PacketData S → Type 0
  Continues s s' =
      ((s'.position.nbytes ≡ 0)
        ⊎ (InPacket end total s'.position × (s'.position.nbytes < s.position.nbytes)))
      × (length s'.trees ≡ length s.trees + 1)

  -- The loop ends within the bytes that are left, with at most a message for each, and with no
  -- fault.
  abbrev Ends : ℕ → PacketData S → Type 0
  Ends fuel s =
      (s' : PacketData S) × (packet_loop m junk fresh_tid st templates fuel s ≡ some s')
      × (s'.fault ≡ false)
      × (s'.position.nbytes ≡ 0)
      × (length s'.trees ≤ length s.trees + s.position.nbytes)
