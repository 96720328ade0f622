-- ===== src/Compare/Files.antt =====
-- rwcompare.c: what the arguments of `main` set, and what its success says.
use fast_wireshark.Base.{
  ℕ, Bool, true, false, ◌||◌, List, [], ◌∷◌, Option, none, some, ◌≡◌, refl, sym, arith, Bool-cases,
  Option-cases, inl, inr, if◌then◌else◌,
}
use fast_wireshark.Compare.{Text}
use fast_wireshark.Compare.Options.{
  Options, parsed, initial, is, or_else, set_option, parse_arguments, arguments,
}
use fast_wireshark.Compare.Flow.{is_given}

-- A flag for a file says whether its name is there, and a plan to send comes with one to expect.
unfoldable pub Given : Options → Type 0
Given o =
    (is_given o.send_filename ≡ is_given o.expect_filename)
    × (o.givenp_pcap ≡ is_given o.pcap_filename)
    × (o.givenp_pdml ≡ is_given o.pdml_filename)
    × (o.givenp_plan ≡ is_given o.plan_filename)

is_given-or_else : (o : Option Text) (name : Text) → is_given (or_else o name) ≡ true
is_given-or_else none name = refl
is_given-or_else (some other) name = refl

initial-Given : Given initial
unfolding Given
initial-Given = (refl, refl, refl, refl)

-- One flag: what it sets, or else the flags behind it.
flag-Given :
    (b : Bool) (x o' : Options) (rest : Option Options)
    → Given x
    → (rest ≡ some o' → Given o')
    → (if b then some x else rest) ≡ some o'
    → Given o'
unfolding Given
flag-Given true x o' rest g k h = ground (arith, g, h)
flag-Given false x o' rest g k h = k h

unknown_flag : (o : Options) → ◌≡◌ {A = Option Options} none (some o) → Given o
unknown_flag o e = absurd (cc)

set_option-Given :
    (atoi : Text → ℕ) (arg value : Text) (o o' : Options)
    → Given o
    → set_option atoi arg value o ≡ some o'
    → Given o'
unfolding Given set_option
set_option-Given atoi arg value o o' (sent, pcap, pdml, plan) h =
    let same : Given o = (sent, pcap, pdml, plan) in
    flag-Given (is "p" arg || is "port" arg) _ o' _ same
      (flag-Given (is "runner" arg) _ o' _ same (
        flag-Given (is "tshark" arg) _ o' _ same (
          flag-Given (is "tmpl" arg) _ o' _ same (
            flag-Given (is "pcap" arg) _ o' _ (sent, refl, pdml, plan)
              (flag-Given (is "send" arg) _ o' _
                (sym (is_given-or_else o.expect_filename value), pcap, pdml, plan)
                (flag-Given (is "expect" arg) _ o' _
                  (is_given-or_else o.send_filename value, pcap, pdml, plan)
                  (flag-Given (is "pdml" arg) _ o' _ (sent, pcap, refl, plan)
                    (flag-Given (is "plan" arg) _ o' _ (sent, pcap, pdml, refl)
                      (unknown_flag o')))))))))
      h

parse_arguments-Given :
    (atoi : Text → ℕ) (args : List Text) (o o' : Options)
    → Given o
    → parse_arguments atoi args o ≡ parsed o'
    → Given o'
unfolding Given parse_arguments
parse_arguments-Given atoi [] o o' g h = ground (arith, g, h)
parse_arguments-Given atoi (arg ∷ []) o o' g h = elim (Bool-cases (is "network" arg)) [
  | inl n ↦ ground (arith, g, h, n)
  | inr n ↦ ground (arith, g, h, n)
]
parse_arguments-Given atoi (arg ∷ value ∷ args) o o' g h = elim (Bool-cases (is "network" arg)) [
  | inl n ↦
      parse_arguments-Given atoi (value ∷ args) (record o { networkp = true }) o' g
        (ground (arith, h, n))
  | inr n ↦ elim (Bool-cases (is "bypass" arg)) [
    | inl b ↦
        parse_arguments-Given atoi (value ∷ args) (record o { bypassp_fastsend = true }) o' g
          (ground (arith, h, n, b))
    | inr b ↦ elim (Option-cases (set_option atoi arg value o)) [
      | inl e ↦ absurd (ground (arith, h, n, b, e))
      | inr (o2, e) ↦
          parse_arguments-Given atoi args o2 o' (set_option-Given atoi arg value o o2 g e)
            (ground (arith, h, n, b, e))
    ]
  ]
]

-- What is accepted is given as the flags say.
pub arguments-Given :
    (atoi : Text → ℕ) (args : List Text) (o : Options) → arguments atoi args ≡ parsed o → Given o
unfolding arguments
arguments-Given atoi [] o h = absurd (cc)
arguments-Given atoi (arg ∷ args) o h =
    parse_arguments-Given atoi (arg ∷ args) initial o initial-Given h
