-- ===== src/Compare/Success.antt =====
-- rwcompare.c: what the exit status of `main` says of the steps that it has taken.
use mathlib.Core.Path.{subst}
use mathlib.Core.List.{append_assoc}
use fast_wireshark.Base.{
  Bool, true, false, ◌&&◌, List, [], ◌∷◌, ◌++◌, Option, none, some, ◌≡◌, refl, sym, ap, ◌∙◌, arith,
  ℕ, Bool-cases, Option-cases, inl, inr, if◌then◌else◌,
}
use fast_wireshark.Compare.{Text, codes}
use fast_wireshark.Compare.Command.{plan_command}
use fast_wireshark.Compare.Options.{Options, arguments, parsed}
use fast_wireshark.Compare.Files.{Given, arguments-Given}
use fast_wireshark.Compare.Flow.{
  Action, spawn, sleep, join, run, generate_plan, compare, remove, Run, is_given, remove_if,
  send_template, step, note, capture, send_to_pcap, read_pcap, name_files, run_session, make_plan,
  compare_plans, remove_files, main, start, printed,
}

module _ (answer : Action → Bool) where
  -- Whether a step went well, where `main` asks.
  abbrev pub went_well : Action → Bool
  went_well (spawn command) = true
  went_well sleep = true
  went_well (remove name) = true
  went_well a = answer a

  unfoldable pub all_well : List Action → Bool
  all_well [] = true
  all_well (a ∷ rest) = went_well a && all_well rest

  all_well-append : (done bs : List Action) → all_well (done ++ bs) ≡ all_well done && all_well bs
  unfolding all_well
  all_well-append [] bs = refl
  all_well-append (a ∷ rest) bs = ground (arith, all_well-append rest bs)

  -- The status is that of the steps.
  Tells : Run → Type 0
  Tells r = r.goodp ≡ all_well r.actions

  module _ (o : Options) where
    -- A step that is taken while all is well.
    Tells-step :
        (a : Action) (r : Run)
        → went_well a ≡ answer a
        → r.goodp ≡ true
        → Tells r
        → Tells (step answer o a r)
    unfolding Tells all_well
    Tells-step a r w g t = ground (arith, w, g, t, all_well-append r.actions (a ∷ []))

    Tells-note : (a : Action) (r : Run) → went_well a ≡ true → Tells r → Tells (note answer o a r)
    unfolding Tells all_well
    Tells-note a r w t = ground (arith, w, t, all_well-append r.actions (a ∷ []))

    ends_with :
        (a : Action) (r : Run)
        → all_well (r.actions ++ (a ∷ [])) ≡ all_well r.actions && went_well a
    unfolding all_well
    ends_with a r = ground (arith, all_well-append r.actions (a ∷ []))

    Tells-make_plan : (r : Run) → Tells r → Tells (make_plan answer o r)
    unfolding make_plan Tells
    Tells-make_plan r t = elim (Option-cases r.pdml) [
      | inl h ↦ ground (arith, h, t)
      | inr (pdml, h) ↦
          let name =
            if o.givenp_plan then printed r.plan else printed r.pcap ++ codes "-plan.xml" in
          elim (Bool-cases r.goodp) [
            | inl g ↦ ground (arith, h, g, t, ends_with (generate_plan pdml name) r)
            | inr g ↦ ground (arith, h, g, t)
          ]
    ]

    Tells-compare_plans : (r : Run) → Tells r → Tells (compare_plans answer o r)
    unfolding compare_plans Tells
    Tells-compare_plans r t = elim (Option-cases r.plan) [
      | inl h ↦ ground (arith, h, t)
      | inr (plan, h) ↦ elim (Option-cases o.expect_filename) [
        | inl e ↦ ground (arith, h, e, t)
        | inr (expect, e) ↦ ground (arith, h, e, t, ends_with (compare plan expect) r)
      ]
    ]

    removes-well :
        (given : Bool) (name : Option Text) → all_well (remove_if answer o given name) ≡ true
    unfolding all_well
    removes-well given none = refl
    removes-well true (some name) = refl
    removes-well false (some name) = refl

    Tells-remove_files : (r : Run) → Tells r → Tells (remove_files answer o r)
    unfolding remove_files Tells
    Tells-remove_files r t =
        let pcap = remove_if answer o o.givenp_pcap r.pcap in
        let pdml = remove_if answer o o.givenp_pdml r.pdml in
        let plan = remove_if answer o o.givenp_plan r.plan in
        ground (
          arith,
          t,
          all_well-append r.actions (pcap ++ (pdml ++ plan)),
          all_well-append pcap (pdml ++ plan),
          all_well-append pdml plan,
          removes-well o.givenp_pcap r.pcap,
          removes-well o.givenp_pdml r.pdml,
          removes-well o.givenp_plan r.plan,
        )

    Tells-join :
        (r : Run)
        → Tells r
        → Tells (record r { goodp = r.goodp && answer join; actions = r.actions ++ (join ∷ []) })
    unfolding Tells
    Tells-join r t = ground (arith, t, ends_with join r)

    Tells-step_if :
        (a : Action) (r : Run)
        → went_well a ≡ answer a
        → Tells r
        → Tells (if r.goodp then step answer o a r else r)
    Tells-step_if a r w t = elim (Bool-cases r.goodp) [
      | inl g ↦
          subst (λ b. Tells (if b then step answer o a r else r)) (sym g) (Tells-step a r w g t)
      | inr g ↦ subst (λ b. Tells (if b then step answer o a r else r)) (sym g) t
    ]

    Tells-send_to_pcap :
        (template : Text) (r : Run)
        → r.goodp ≡ true
        → Tells r
        → Tells (send_to_pcap answer o template r)
    unfolding Tells
    Tells-send_to_pcap template r g t = elim (Option-cases o.plan_runner_jar) [
      | inl h ↦ ground (arith, h, t)
      | inr (jar, h) ↦
          let command =
            run
              (plan_command jar (send_template answer o template) o.send_filename r.pcap o.port) in
          ground (arith, h, t, g, ends_with command r)
    ]

    Tells-capture :
        (jar template send : Text) (r : Run)
        → r.goodp ≡ true
        → Tells r
        → Tells (capture answer o jar template send r)
    Tells-capture jar template send r g t =
        Tells-join _ (Tells-step _ _ refl g (Tells-note _ _ refl (Tells-note _ _ refl t)))

    module _ (template : Text) (r : Run) where
      abbrev reading : Run
      reading = read_pcap answer o template (send_to_pcap answer o template (name_files answer o r))

      -- Which branch the session takes.
      without_jar : o.plan_runner_jar ≡ none → run_session answer o template r ≡ reading
      unfolding run_session
      without_jar h = cc (h)

      without_plan :
          (jar : Text)
          → o.plan_runner_jar ≡ some jar
          → o.send_filename ≡ none
          → run_session answer o template r ≡ reading
      unfolding run_session
      without_plan jar h e = cc (h, e)

      with_plan :
          (jar send : Text)
          → o.plan_runner_jar ≡ some jar
          → o.send_filename ≡ some send
          → run_session answer o template r ≡ (
              if o.networkp
              then capture answer o jar template send (name_files answer o r)
              else reading)
      unfolding run_session
      with_plan jar send h e = cc (h, e)

    reading-pdml :
        (template : Text) (r : Run) → (reading template r).pdml ≡ (name_files answer o r).pdml
    reading-pdml template r = elim (Option-cases o.plan_runner_jar) [
      | inl h ↦ ground (arith, h)
      | inr (jar, h) ↦ ground (arith, h)
    ]

    Tells-start : Tells (start answer o)
    unfolding Tells all_well
    Tells-start = refl

    Tells-name_files : (r : Run) → Tells r → Tells (name_files answer o r)
    unfolding Tells
    Tells-name_files r t = t

    Tells-run_session :
        (template : Text) (r : Run)
        → r.goodp ≡ true
        → Tells r
        → Tells (run_session answer o template r)
    Tells-run_session template r g t =
        let named = name_files answer o r in
        let same = Tells-name_files r t in
        let read =
          Tells-step_if _ (send_to_pcap answer o template named) refl
            (Tells-send_to_pcap template named g same) in
        elim (Option-cases o.plan_runner_jar) [
          | inl h ↦ rw (without_jar template r h) read
          | inr (jar, h) ↦ elim (Option-cases o.send_filename) [
            | inl e ↦ rw (without_plan template r jar h e) read
            | inr (send, e) ↦ rw (with_plan template r jar send h e) (elim (Bool-cases o.networkp) [
              | inl n ↦
                  subst
                    (λ b.
                      Tells (
                        if b then capture answer o jar template send named else reading template r))
                    (sym n) (Tells-capture jar template send named g same)
              | inr n ↦
                  subst
                    (λ b.
                      Tells (
                        if b then capture answer o jar template send named else reading template r))
                    (sym n) read
            ])
          ]
        ]

    run_session-pdml :
        (template : Text) (r : Run)
        → (run_session answer o template r).pdml ≡ (name_files answer o r).pdml
    run_session-pdml template r = elim (Option-cases o.plan_runner_jar) [
      | inl h ↦ rw (without_jar template r h) (reading-pdml template r)
      | inr (jar, h) ↦ elim (Option-cases o.send_filename) [
        | inl e ↦ rw (without_plan template r jar h e) (reading-pdml template r)
        | inr (send, e) ↦ ground (arith, with_plan template r jar send h e, reading-pdml template r)
      ]
    ]

    -- The name that the plan file gets.
    abbrev pub plan_name : Run → Text
    plan_name r = if o.givenp_plan then printed r.plan else printed r.pcap ++ codes "-plan.xml"

    plans :
        (r : Run) (pdml : Text)
        → r.pdml ≡ some pdml
        → (make_plan answer o r).goodp ≡ true
        → ((make_plan answer o r).actions ≡ r.actions ++ (generate_plan pdml (plan_name r) ∷ []))
          × ((make_plan answer o r).plan ≡ some (plan_name r))
          × (answer (generate_plan pdml (plan_name r)) ≡ true)
    unfolding make_plan
    plans r pdml h g = elim (Bool-cases r.goodp) [
      | inl good ↦ (ground (arith, h, good), ground (arith, h, good), ground (arith, h, good, g))
      | inr bad ↦ absurd (ground (arith, h, bad, g))
    ]

    good_before :
        (r : Run) (expect : Text)
        → o.expect_filename ≡ some expect
        → (compare_plans answer o r).goodp ≡ true
        → r.goodp ≡ true
    unfolding compare_plans
    good_before r expect e g = elim (Option-cases r.plan) [
      | inl h ↦ ground (arith, h, g)
      | inr (plan, h) ↦ ground (arith, h, e, g)
    ]

    compares :
        (r : Run) (plan expect : Text)
        → r.plan ≡ some plan
        → o.expect_filename ≡ some expect
        → (compare_plans answer o r).goodp ≡ true
        → ((compare_plans answer o r).actions ≡ r.actions ++ (compare plan expect ∷ []))
          × (answer (compare plan expect) ≡ true)
    unfolding compare_plans
    compares r plan expect h e g =
        let good : r.goodp ≡ true = unfold compare_plans in good_before r expect e g in
        (ground (arith, h, e, good), ground (arith, h, e, good, g))

    -- The plan is made from the PDML file, and the file that is made is compared, if all is well.
    plans_compares :
        (r : Run) (pdml expect : Text)
        → r.pdml ≡ some pdml
        → o.expect_filename ≡ some expect
        → let done = compare_plans answer o (make_plan answer o r) in
          done.goodp ≡ true
          → (done.actions
              ≡ r.actions ++ (generate_plan pdml (plan_name r) ∷ compare (plan_name r) expect ∷ []))
            × (answer (generate_plan pdml (plan_name r)) ≡ true)
            × (answer (compare (plan_name r) expect) ≡ true)
    plans_compares r pdml expect h e g =
        let (made, named, answered) =
          plans r pdml h (good_before (make_plan answer o r) expect e g) in
        let (steps, matched) = compares (make_plan answer o r) (plan_name r) expect named e g in
        (
          steps
              ∙ ap (λ a. a ++ (compare (plan_name r) expect ∷ [])) made
              ∙ append_assoc r.actions (generate_plan pdml (plan_name r) ∷ [])
                  (compare (plan_name r) expect ∷ []),
          answered,
          matched,
        )

    is_given-cases :
        (name : Option Text) → is_given name ≡ true → (text : Text) × (name ≡ some text)
    is_given-cases none h = absurd (cc)
    is_given-cases (some text) h = (text, refl)

    name_files-pdml :
        Given o → (pdml : Text) × ((name_files answer o (start answer o)).pdml ≡ some pdml)
    unfolding Given
    name_files-pdml g =
        is_given-cases (name_files answer o (start answer o)).pdml (ground (arith, g))

    module _ (template : Text) where
      abbrev planned : Run
      planned = make_plan answer o (run_session answer o template (start answer o))

      abbrev compared : Run
      compared = compare_plans answer o planned

      with_template :
          o.template_filename ≡ some template → main answer o ≡ remove_files answer o compared
      unfolding main
      with_template t = cc (t)

      Tells-compared : Tells compared
      Tells-compared = Tells-compare_plans planned (
          Tells-make_plan (run_session answer o template (start answer o))
            (Tells-run_session template (start answer o) refl (Tells-start)))

  -- The test of `rwcompare`, where the arguments give a template and a plan to expect: whatever
  -- the tools answer, `main` succeeds exactly if every step that it has taken went well; and if
  -- it succeeds, then after the capture session its next two steps were to make a plan file from
  -- the session's PDML file, under the name that the arguments give or that the pcap file's name
  -- gives, which went well, and to compare this same plan file with the expected one, and they
  -- matched.
  pub main_lem :
      (atoi : Text → ℕ) (args : List Text) (o : Options) (template expect : Text)
      → arguments atoi args ≡ parsed o
      → o.template_filename ≡ some template
      → o.expect_filename ≡ some expect
      → let done = main answer o in
        let session = run_session answer o template (start answer o) in
        (done.goodp ≡ all_well done.actions)
        × (done.goodp ≡ true
            → (pdml : Text) × (after : List Action) × ((session.pdml ≡ some pdml)
                × (done.actions
                    ≡ session.actions
                      ++ (generate_plan pdml (plan_name o session)
                          ∷ compare (plan_name o session) expect
                          ∷ after))
                × (answer (generate_plan pdml (plan_name o session)) ≡ true)
                × (answer (compare (plan_name o session) expect) ≡ true)))
  unfolding remove_files Tells
  main_lem atoi args o template expect h t e =
      let session = run_session answer o template (start answer o) in
      let done = compared o template in
      let removed =
        remove_if answer o o.givenp_pcap done.pcap
        ++ (remove_if answer o o.givenp_pdml done.pdml
            ++ remove_if answer o o.givenp_plan done.plan) in
      let (pdml, named) = name_files-pdml o (arguments-Given atoi args o h) in
      let has_pdml = run_session-pdml o template (start answer o) ∙ named in
      rw (with_template o template t) (
        Tells-remove_files o done (Tells-compared o template),
        λ g.
            let (steps, made, matched) = plans_compares o session pdml expect has_pdml e g in
            let generated = generate_plan pdml (plan_name o session) in
            let checked = compare (plan_name o session) expect in
            (
              pdml,
              removed,
              (
                has_pdml,
                rw steps (append_assoc session.actions (generated ∷ checked ∷ []) removed),
                made,
                matched,
              ),
            ),
      )
