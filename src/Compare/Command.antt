-- ===== src/Compare/Command.antt =====
-- run-exe.c: the commands that the tool runs. A number is printed by `%d` from the pattern of an
-- `int`.
use fast_wireshark.Compare.{Text, codes}
use fast_wireshark.Plugin.Text.{digits, max_digits, is_negative, magnitude}
use fast_wireshark.Base.{ℕ, List, [], ◌∷◌, ◌++◌, take, Option, none, some, ◌==◌, if◌then◌else◌}

unfoldable pub decimal : ℕ → Text
unfolding digits
decimal n =
    let rest = digits max_digits (magnitude 32 n) in if is_negative 32 n then b'-' ∷ rest else rest

abbrev template_pref : Option Text → List Text
template_pref none = []
template_pref (some name) = (codes "fast.template:" ++ name) ∷ []

-- What is stored in `prefs`: at most 11 texts, for which it has room.
unfoldable pub preferences : Option Text → ℕ → List Text
unfolding decimal
preferences template_filename port =
    template_pref template_filename
    ++ ((if port == 0 then [] else (codes "fast.port:" ++ decimal port) ∷ [])
        ++ (codes "fast.enabled:true"
            ∷ codes "fast.sci_notation:true"
            ∷ codes "fast.show_empty:true"
            ∷ codes "fast.implementation:Generic"
            ∷ codes "fast.show_field_dictionaries:false"
            ∷ codes "fast.show_field_keys:false"
            ∷ codes "fast.show_field_operators:false"
            ∷ codes "fast.show_field_mandatoriness:false"
            ∷ codes "fast.enable_dialogs:false"
            ∷ []))

abbrev pub nprefs : ℕ
nprefs = 10

abbrev flagged : Text → List Text → List Text
flagged flag [] = []
flagged flag (text ∷ texts) = flag ∷ text ∷ flagged flag texts

abbrev pdml_flags : Option Text → List Text
pdml_flags none = []
pdml_flags (some name) = codes "-S" ∷ codes "-T" ∷ codes "pdml" ∷ []

-- The command of `run_tshark`. The loop passes on the first `nprefs` of the preferences.
unfoldable pub tshark_command : Text → Text → Option Text → ℕ → Option Text → ℕ → List Text
unfolding preferences decimal
tshark_command exe pcap template port output duration =
    exe
    ∷ (flagged (codes "-o") (take nprefs (preferences template port))
        ++ (pdml_flags output
            ++ ((if duration == 0
                  then codes "-r" ∷ []
                  else codes "-a"
                    ∷ (codes "duration:" ++ digits max_digits duration)
                    ∷ codes "-i"
                    ∷ codes "lo"
                    ∷ codes "-w"
                    ∷ [])
                ++ (pcap ∷ []))))

abbrev option_with : Text → Option Text → List Text
option_with flag none = []
option_with flag (some value) = flag ∷ value ∷ []

-- The command of `run_plan`. A null plan file ends the command, as `g_strdup` copies a null pointer.
unfoldable pub plan_command : Text → Option Text → Option Text → Option Text → ℕ → List Text
unfolding decimal
plan_command jar template none pcap port =
    codes "java" ∷ codes "-jar" ∷ jar ∷ (option_with (codes "-t") template ++ (codes "-p" ∷ []))
plan_command jar template (some plan) pcap port =
    codes "java"
    ∷ codes "-jar"
    ∷ jar
    ∷ (option_with (codes "-t") template
        ++ (codes "-p" ∷ plan ∷ codes "-n" ∷ decimal port ∷ option_with (codes "-P") pcap))
