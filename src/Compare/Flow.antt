-- ===== src/Compare/Flow.antt =====
-- rwcompare.c: the steps of `main` behind its arguments, with the files that they read and write.
-- The tools, the thread and the plan files are outside: a step has a result, and `answer` gives it.
use fast_wireshark.Base.{
  Bool, true, false, ◌&&◌, List, [], ◌∷◌, ◌++◌, Option, none, some, if◌then◌else◌,
}
use fast_wireshark.Compare.{Text, codes}
use fast_wireshark.Compare.Command.{tshark_command, plan_command}
use fast_wireshark.Compare.Options.{Options}

pub data Action : Type 0 where
  -- `spawn_tshark`, with the command that the thread runs, `g_usleep`, and `g_thread_join`.
  spawn : List Text → Action
  sleep join : Action
  -- `run_tshark` and `run_plan`
  run : List Text → Action
  generate_plan : (pdml plan : Text) → Action
  compare : (plan expect : Text) → Action
  remove : Text → Action

abbrev pub is_given : Option Text → Bool
is_given none = false
is_given (some name) = true

-- What `g_strdup_printf` prints for `%s`.
abbrev pub printed : Option Text → Text
printed none = codes "(null)"
printed (some name) = name

-- The variables that `main` changes, and the steps that it has taken.
pub record Run : Type 0 where
  pub pcap : Option Text
  pub pdml : Option Text
  pub plan : Option Text
  pub goodp : Bool
  pub actions : List Action

module _ (answer : Action → Bool) (o : Options) where
  abbrev pub step : Action → Run → Run
  step a r = record r { goodp = answer a; actions = r.actions ++ (a ∷ []) }

  -- A step of which the result is not kept.
  abbrev pub note : Action → Run → Run
  note a r = record r { actions = r.actions ++ (a ∷ []) }

  abbrev pub send_template : Text → Option Text
  send_template template = if o.bypassp_fastsend then none else some template

  -- `5` is the duration in seconds.
  abbrev pub capture : Text → Text → Text → Run → Run
  capture jar template send r =
      let tshark = tshark_command o.tshark_exe (printed r.pcap) (some template) o.port r.pdml 5 in
      let sent =
        step (run (plan_command jar (send_template template) (some send) none o.port))
          (note sleep (note (spawn tshark) r)) in
      record sent { goodp = sent.goodp && answer join; actions = sent.actions ++ (join ∷ []) }

  abbrev pub send_to_pcap : Text → Run → Run
  send_to_pcap template r = elim (o.plan_runner_jar) [
    | none ↦ r
    | some jar ↦
        if o.networkp
        then r
        else step (run (plan_command jar (send_template template) o.send_filename r.pcap o.port)) r
  ]

  abbrev pub read_pcap : Text → Run → Run
  read_pcap template r =
      if r.goodp
      then step (run (tshark_command o.tshark_exe (printed r.pcap) (some template) o.port r.pdml 0))
          r
      else r

  -- The names of the files that are not given.
  abbrev pub name_files : Run → Run
  name_files r =
      let pcap =
        if o.givenp_pcap then r.pcap else some (printed o.expect_filename ++ codes ".pcap") in
      let pdml = if o.givenp_pdml then r.pdml else some (printed pcap ++ codes "-pdml.xml") in
      record r { pcap = pcap; pdml = pdml }

  -- `Run a TShark capture session.`
  unfoldable pub run_session : Text → Run → Run
  unfolding tshark_command plan_command
  run_session template r =
      let named = name_files r in
      let read = read_pcap template (send_to_pcap template named) in
      elim (o.plan_runner_jar) [
        | none ↦ read
        | some jar ↦ elim (o.send_filename) [
          | none ↦ read
          | some send ↦ if o.networkp then capture jar template send named else read
        ]
      ]

  -- `Generate a plan file.`
  unfoldable pub make_plan : Run → Run
  make_plan r = elim (r.pdml) [
    | none ↦ r
    | some pdml ↦
        let name = if o.givenp_plan then printed r.plan else printed r.pcap ++ codes "-plan.xml" in
        if r.goodp then step (generate_plan pdml name) (record r { plan = some name }) else r
  ]

  -- `Compare the two plan files.`
  unfoldable pub compare_plans : Run → Run
  compare_plans r = elim (r.plan) [
    | none ↦ r
    | some plan ↦ elim (o.expect_filename) [
      | none ↦ r
      | some expect ↦ if r.goodp then step (compare plan expect) r else r
    ]
  ]

  abbrev pub remove_if : Bool → Option Text → List Action
  remove_if given none = []
  remove_if given (some name) = if given then [] else remove name ∷ []

  -- `Remove intermediary files if not given.`
  unfoldable pub remove_files : Run → Run
  remove_files r = record r {
    actions =
        r.actions
        ++ (remove_if o.givenp_pcap r.pcap
            ++ (remove_if o.givenp_pdml r.pdml ++ remove_if o.givenp_plan r.plan));
  }

  abbrev pub start : Run
  start = record {
    pcap = o.pcap_filename;
    pdml = o.pdml_filename;
    plan = o.plan_filename;
    goodp = true;
    actions = [];
  }

  abbrev pub session : Option Text → Run → Run
  session none r = r
  session (some template) r = run_session template r

  -- The steps, and in `goodp` whether `main` returns `EXIT_SUCCESS`.
  unfoldable pub main : Run
  unfolding run_session make_plan compare_plans remove_files
  main = remove_files (compare_plans (make_plan (session o.template_filename start)))
