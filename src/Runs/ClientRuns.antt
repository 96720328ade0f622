-- ===== src/Runs/ClientRuns.antt =====
-- A message of the client: the packet that it sends, and the dissector's start on it.
use fast_wireshark.Base.{
  ℕ, ◌+◌, ◌-◌, ◌*◌, ◌≤◌, ◌≡◌, refl, false, true, List, [], ◌∷◌, ◌++◌, map, replicate, some, none,
  Option, arith,
}
use fast_wireshark.Decode.{count_stop_bit_encoded, decode_pmap}
use fast_wireshark.Decode.Pmap.{is_set}
use fast_wireshark.Encode.{encode_pmap}
use fast_wireshark.Encode.Pmap.{decode_pmap-encode_pmap}
use fast_wireshark.Position.{FieldData}
use fast_wireshark.Position.Window.{InPacket}
use fast_wireshark.Position
use fast_wireshark.Field.{Machine}
use fast_wireshark.Template.{TNode}
use fast_wireshark.Dissect.Node.{Store}
use fast_wireshark.Dissect.Message.{walk_message, dissect_fast_bytes}
use fast_wireshark.Client.{FastMessage, encode_fast, run_client, tid, noreq, uint32, nop}
use fast_wireshark.Client.Identifier.{AtFields}
use fast_wireshark.Client.EndToEnd.{dissect_fast_bytes-encode_fast}
use fast_wireshark.Runs.Data.{from, from-IsBytes, machine, start, blank}

-- A reader of decimal numbers.
abbrev read : ℕ → List ℕ → ℕ
read acc [] = acc
read acc (c ∷ cs) = read (acc * 10 + (c - b'0')) cs

abbrev strtoull : List ℕ → ℕ
strtoull = read 0

abbrev packet : List ℕ
packet = 208 ∷ 135 ∷ 130 ∷ []

-- The template identifier 7, an optional field that is left out, and an optional 2.
sent :
    run_client strtoull strtoull 6 (tid (b'7' ∷ []) ∷ noreq ∷ nop ∷ uint32 (b'2' ∷ []) ∷ [])
    ≡ some packet
unfolding run_client
sent = refl

abbrev fmsg : FastMessage
fmsg = record {
  host = [];
  service = [];
  pmap = 1 ∷ 0 ∷ 1 ∷ [];
  tidp = true;
  tid = 7;
  msg = 130 ∷ [];
}

abbrev m : Machine
m = machine packet

abbrev forgetful : Store ℕ
forgetful = record { get = λ ftype fdata s. (false, fdata, s); set = λ ftype fdata s. s }

abbrev no_templates : ℕ → Option TNode
no_templates n = none

inside : InPacket 3 3 (start 3)
inside = record { at_end = refl; at_total = refl; small = omega arith }

fmsg_sent : encode_fast fmsg ≡ some packet
unfolding encode_fast
fmsg_sent = refl

dissect_fast_bytes-encode_fast_example :
    (q : Position.DissectPosition) × (first : ℕ) × (fdata : FieldData) × AtFields m
      (start 3)
      (0 ∷ 1 ∷ [])
      (130 ∷ [])
      packet
      q
    × (dissect_fast_bytes m blank forgetful no_templates 0 (start 3) blank 0
        ≡ walk_message m blank forgetful no_templates none first 7 q fdata 0)
dissect_fast_bytes-encode_fast_example =
    dissect_fast_bytes-encode_fast m (from-IsBytes packet refl) blank forgetful no_templates
      (start 3) 0 fmsg packet blank 0 inside (omega arith) (omega arith) fmsg_sent
      (refl, (refl, (refl, tt))) (omega arith)

decode_pmap-encode_pmap_example :
    (count_stop_bit_encoded 3 (from packet) ≡ 1)
    × ((pad : ℕ) × (pad ≤ 7)
        × (map is_set (decode_pmap 1 (from packet))
            ≡ (true ∷ false ∷ true ∷ []) ++ replicate pad false))
unfolding encode_pmap
decode_pmap-encode_pmap_example =
    decode_pmap-encode_pmap (1 ∷ 0 ∷ 1 ∷ []) (from packet) 3 (from-IsBytes packet refl) (refl, tt)
      (omega arith)
