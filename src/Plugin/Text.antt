-- ===== src/Plugin/Text.antt =====
-- packet-fast.c: the texts that the plug-in makes of a field, `to_decimal` and
-- `generate_field_info`. A text is the list of its characters, without the terminator.
use Prim.Native.String.{String, ◌++◌ as str_append}
use fast_wireshark.Base.{
  ℕ, zero, suc, ◌+◌, ◌-◌, ◌/◌, ◌%◌, ◌^◌, Bool, true, false, ◌&&◌, List, [], ◌∷◌, ◌++◌, length, take,
  drop, replicate, Option, none, some, leb, ltb, ◌==◌, if◌then◌else◌,
}
use fast_wireshark.Template.{FieldType, operator_typename}

-- The decimal digits of a number with at most `fuel` digits, as `sprintf` writes them.
unfoldable pub digits : ℕ → ℕ → List ℕ
digits zero n = []
digits (suc fuel) n =
    let rest = digits fuel (n / 10) in
    if ltb n 10 then (n + b'0') ∷ [] else rest ++ ((n % 10 + b'0') ∷ [])

-- A 64-bit number has at most 20 digits.
abbrev pub max_digits : ℕ
max_digits = 20

abbrev pub max_mant : ℕ
max_mant = 21

abbrev pub max_expt : ℕ
max_expt = 10

-- A text, a null pointer, and a write outside a buffer or an overflow of a signed integer.
pub data Printed : Type 0 where
  text : List ℕ → Printed
  null undefined : Printed

abbrev pub is_negative : ℕ → ℕ → Bool
is_negative w x = leb (2 ^ (w - 1)) x

abbrev pub magnitude : ℕ → ℕ → ℕ
magnitude w x = if is_negative w x then 2 ^ w - x else x

abbrev pub neg : ℕ → List ℕ
neg mant = if is_negative 64 mant then b'-' ∷ [] else []

-- The branch for a negative exponent: `k` is its absolute value and `base` the digits of the
-- mantissa's. `left` has room for 11 characters and the terminator, and `result` for 20.
unfoldable pub with_point : ℕ → List ℕ → List ℕ → Printed
with_point k sign base =
    let point = length base - k in
    if ltb k (length base)
    then (if ltb (max_expt + 1) point
        then undefined
        else (if ltb (max_mant - 1) (length sign + length base + 1)
            then undefined
            else text (sign ++ (take point base ++ (b'.' ∷ drop point base)))))
    else text (sign ++ (b'.' ∷ (replicate (k - length base) b'0' ++ base)))

-- `to_decimal`, with the patterns of a gint32 and of a gint64. The absolute value of the least
-- gint64 is no gint64.
unfoldable pub to_decimal : ℕ → ℕ → Printed
unfolding digits with_point
to_decimal expt mant =
    let base = digits max_digits (magnitude 64 mant) in
    if expt == 0
    then text (b'1' ∷ [])
    else (if ltb max_expt (magnitude 32 expt)
        then null
        else (if is_negative 32 expt
            then (if mant == 2 ^ 63
                then undefined
                else with_point (magnitude 32 expt) (neg mant) base)
            else text (neg mant ++ (base ++ replicate expt b'0'))))

-- The preferences of the display.
pub record Preferences : Type 0 where
  pub show_field_dictionaries : Bool
  pub show_field_keys : Bool
  pub show_field_operators : Bool
  pub show_field_mandatoriness : Bool

-- A part of the text: behind what is there, or first in the bracket.
abbrev pub add_info : Bool → String → Option String → Option String
add_info false part field_inf = field_inf
add_info true part none = some (str_append "[" part)
add_info true part (some temp) = some (str_append temp (str_append " " part))

abbrev pub dictionary_text : Option String → String
dictionary_text none = "dictionary=global"
dictionary_text (some name) = str_append "dictionary=" name

abbrev pub key_text : Option String → String
key_text none = ""
key_text (some key) = str_append "key=" key

abbrev pub has_text : Option String → Bool
has_text none = false
has_text (some key) = true

abbrev pub close_info : Option String → String
close_info none = ""
close_info (some temp) = str_append temp "]"

unfoldable pub generate_field_info : Preferences → FieldType → String
unfolding operator_typename
generate_field_info prefs ftype =
    let inf1 = add_info prefs.show_field_dictionaries (dictionary_text ftype.dictionary) none in
    let inf2 = add_info (prefs.show_field_keys && has_text ftype.key) (key_text ftype.key) inf1 in
    let inf3 =
      add_info prefs.show_field_operators (str_append "operator=" (operator_typename ftype.op))
        inf2 in
    let inf4 =
      add_info prefs.show_field_mandatoriness
        (if ftype.mandatory then "mandatory" else "not mandatory") inf3 in
    close_info inf4
