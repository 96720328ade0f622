-- ===== src/Client.antt =====
-- util/client/client.c: the program that builds one message from its options and encodes it.
-- The texts that are options' arguments are lists of bytes, without the terminator. GLib's readers
-- of decimal numbers are parameters. `none` is a write outside a buffer or an exit. Sockets are
-- left out: what would be sent is the result of `encode_fast`.
pub mod Header
pub mod Identifier
pub mod EndToEnd
use mathlib.Core.Option
use fast_wireshark.Base.{
  ℕ, zero, suc, ◌%◌, ◌^◌, Bool, true, false, List, [], ◌∷◌, ◌++◌, set, Option, none, some,
  if◌then◌else◌, ◌==◌,
}
use fast_wireshark.Encode.{
  encode_pmap, encode_uint32, encode_uint64, encode_int32, encode_ascii, encode_hex, encode_bit,
  encode_bytevec,
}

-- `fast_message_struct`, without the socket's address.
pub record FastMessage : Type 0 where
  pub host : List ℕ
  pub service : List ℕ
  pub pmap : List ℕ
  pub tidp : Bool
  pub tid : ℕ
  pub msg : List ℕ

-- The variables of `main`.
pub record Main : Type 0 where
  pub fmsg : FastMessage
  pub requiredp : Bool
  pub genp_c : Bool

-- What `prog_getopt` returns, with `optarg`.
pub data Optkey : Type 0 where
  help gen_c notid req noreq nop : Optkey
  host port tid uint32 int32 uint64 int64 ascii bytevec hex bit : List ℕ → Optkey

-- A `gboolean` as it is stored in a byte.
abbrev pub byte_of : Bool → ℕ
byte_of true = 1
byte_of false = 0

unfoldable pub add_pmap : FastMessage → ℕ → FastMessage
add_pmap fmsg b = record fmsg { pmap = fmsg.pmap ++ (b ∷ []) }

-- `encode_fast`: the placeholder for the template identifier is set, and the parts are joined.
unfoldable pub encode_fast : FastMessage → Option (List ℕ)
unfolding encode_pmap encode_uint32
encode_fast fmsg =
    let encoded = encode_pmap (set fmsg.pmap 0 (byte_of fmsg.tidp)) [] in
    Option.map (λ out. out ++ fmsg.msg)
      (if fmsg.tidp then encode_uint32 fmsg.tid encoded else some encoded)

-- The state in which `main` starts to read its options.
abbrev pub initial : Main
initial = record {
  fmsg = record {
    host = b'l' ∷ b'o' ∷ b'c' ∷ b'a' ∷ b'l' ∷ b'h' ∷ b'o' ∷ b's' ∷ b't' ∷ [];
    service = b'1' ∷ b'3' ∷ b'3' ∷ b'7' ∷ [];
    pmap = 1 ∷ [];
    tidp = true;
    tid = 1;
    msg = [];
  };
  requiredp = true;
  genp_c = false;
}

-- A field of the message: an entry of the presence map where fields are optional, and the bytes.
abbrev pub add_field : (List ℕ → Option (List ℕ)) → Main → Option Main
add_field encode s =
    let fmsg = if s.requiredp then s.fmsg else add_pmap s.fmsg 1 in
    Option.map (λ bytes. record s { fmsg = record fmsg { msg = bytes } }) (encode fmsg.msg)

module _ (strtoull strtoll : List ℕ → ℕ) where
  -- One round of the loop over the options. `int64` is encoded by `encode_uint64`.
  unfoldable pub main_step : Optkey → Main → Option Main
  unfolding add_pmap encode_uint32 encode_int32 encode_uint64 encode_ascii encode_bytevec encode_hex
      encode_bit
  main_step help s = none
  main_step (host arg) s = some (record s { fmsg = record s.fmsg { host = arg } })
  main_step (port arg) s = some (record s { fmsg = record s.fmsg { service = arg } })
  main_step gen_c s = some (record s { genp_c = true })
  main_step (tid arg) s = some (record s { fmsg = record s.fmsg { tid = strtoull arg % 2 ^ 32 } })
  main_step notid s = some (record s { fmsg = record s.fmsg { tidp = false } })
  main_step req s = some (record s { requiredp = true })
  main_step noreq s = some (record s { requiredp = false })
  main_step (uint32 arg) s = add_field (encode_uint32 (strtoull arg % 2 ^ 32)) s
  main_step (int32 arg) s = add_field (encode_int32 (strtoll arg % 2 ^ 32)) s
  main_step (uint64 arg) s = add_field (encode_uint64 (strtoull arg)) s
  main_step (int64 arg) s = add_field (encode_uint64 (strtoll arg)) s
  main_step (ascii arg) s = add_field (encode_ascii arg) s
  main_step (bytevec arg) s = add_field (encode_bytevec arg) s
  main_step nop s = some (record s { fmsg = add_pmap s.fmsg 0 })
  main_step (hex arg) s = add_field (λ msg. some (encode_hex arg msg)) s
  main_step (bit arg) s = add_field (λ msg. some (encode_bit arg msg)) s

  -- The options in order, and the message that is sent at their end.
  main_loop : List Optkey → Main → Option Main
  unfolding main_step
  main_loop [] s = some s
  main_loop (o ∷ os) s = elim (main_step o s) [ none ↦ none | some s' ↦ main_loop os s' ]

  -- `main`, with the number of its arguments.
  unfoldable pub run_client : ℕ → List Optkey → Option (List ℕ)
  unfolding main_loop encode_fast
  run_client argc os =
      if argc == 1
      then none
      else elim (main_loop os initial) [ none ↦ none | some s ↦ encode_fast s.fmsg ]
