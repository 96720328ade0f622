-- ===== src/Compare/Options.antt =====
-- rwcompare.c: the loop of `main` over the arguments of the program.
use Prim.Native.String.{String}
use fast_wireshark.Compare.{Text, codes, text_eq}
use fast_wireshark.Base.{
  ℕ, Bool, true, false, ◌||◌, List, [], ◌∷◌, Option, none, some, if◌then◌else◌,
}

-- The local variables that the arguments set.
pub record Options : Type 0 where
  pub template_filename : Option Text
  pub send_filename : Option Text
  pub expect_filename : Option Text
  pub pcap_filename : Option Text
  pub pdml_filename : Option Text
  pub plan_filename : Option Text
  pub plan_runner_jar : Option Text
  pub tshark_exe : Text
  pub port : ℕ
  pub givenp_pcap : Bool
  pub givenp_pdml : Bool
  pub givenp_plan : Bool
  pub networkp : Bool
  pub bypassp_fastsend : Bool

abbrev pub initial : Options
initial = record {
  template_filename = none;
  send_filename = none;
  expect_filename = none;
  pcap_filename = none;
  pdml_filename = none;
  plan_filename = none;
  plan_runner_jar = none;
  tshark_exe = codes "tshark";
  port = 5000;
  givenp_pcap = false;
  givenp_pdml = false;
  givenp_plan = false;
  networkp = false;
  bypassp_fastsend = false;
}

-- The end of the loop, or a call of `ArgParseBailOut`, with the argument that failed.
pub data Arguments : Type 0 where
  parsed : Options → Arguments
  no_arguments : Arguments
  trailing_flag unknown_argument : Text → Arguments

abbrev pub or_else : Option Text → Text → Option Text
or_else none other = some other
or_else (some name) other = some name

-- `strcmp` with the result 0.
abbrev pub is : String → Text → Bool
is a b = text_eq (codes a) b

-- The flags that have a value, with the value; `none` for an unknown argument. `atoi` gives the
-- pattern of an `int`.
unfoldable pub set_option : (Text → ℕ) → Text → Text → Options → Option Options
set_option atoi arg value o =
    if is "p" arg || is "port" arg
    then some (record o { port = atoi value })
    else (if is "runner" arg
        then some (record o { plan_runner_jar = some value })
        else (if is "tshark" arg
            then some (record o { tshark_exe = value })
            else (if is "tmpl" arg
                then some (record o { template_filename = some value })
                else (if is "pcap" arg
                    then some (record o { pcap_filename = some value; givenp_pcap = true })
                    else (if is "send" arg
                        then some (record o {
                          send_filename = some value;
                          expect_filename = or_else o.expect_filename value;
                        })
                        else (if is "expect" arg
                            then some (record o {
                              expect_filename = some value;
                              send_filename = or_else o.send_filename value;
                            })
                            else (if is "pdml" arg
                                then some
                                    (record o { pdml_filename = some value; givenp_pdml = true })
                                else (if is "plan" arg
                                    then some (record o {
                                      plan_filename = some value;
                                      givenp_plan = true;
                                    })
                                    else none))))))))

-- The loop over the arguments that are left.
unfoldable pub parse_arguments : (Text → ℕ) → List Text → Options → Arguments
unfolding set_option
parse_arguments atoi [] o = parsed o
parse_arguments atoi (arg ∷ []) o =
    if is "network" arg
    then parsed (record o { networkp = true })
    else (if is "bypass" arg
        then parsed (record o { bypassp_fastsend = true })
        else trailing_flag arg)
parse_arguments atoi (arg ∷ value ∷ args) o = elim (is "network" arg) [
  | true ↦ parse_arguments atoi (value ∷ args) (record o { networkp = true })
  | false ↦ elim (is "bypass" arg) [
    | true ↦ parse_arguments atoi (value ∷ args) (record o { bypassp_fastsend = true })
    | false ↦ elim (set_option atoi arg value o) [
      | none ↦ unknown_argument arg
      | some o' ↦ parse_arguments atoi args o'
    ]
  ]
]

-- `argv` without the program's name.
unfoldable pub arguments : (Text → ℕ) → List Text → Arguments
unfolding parse_arguments
arguments atoi [] = no_arguments
arguments atoi (arg ∷ args) = parse_arguments atoi (arg ∷ args) initial
