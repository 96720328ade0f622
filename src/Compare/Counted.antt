-- ===== src/Compare/Counted.antt =====
-- pdmlParser.c: `generatePlanFromPDML` on a whole document, and the packets that are counted.
use mathlib.Core.List.{append-nil, append_assoc}
use fast_wireshark.Base.{
  ℕ, ◌+◌, ◌%◌, ◌^◌, ◌<◌, Bool, true, false, List, [], ◌∷◌, ◌++◌, length, length-append, suc, some,
  inl, inr, ◌≡◌, refl, sym, ap, ◌∙◌, arith, Bool-cases, if◌then◌else◌,
}
use fast_wireshark.Compare.{Text, codes, XmlNode, XmlNodes, nil, cons, children_of}
use fast_wireshark.Compare.Equivalence.{Info}
use fast_wireshark.Compare.Writer.{TextWriter, and_if, init_xml_writer, close_and_write_xml_output}
use fast_wireshark.Compare.Pdml.{
  Parsed, parse_fast_packet, packet_protos, parse_packet, doc_packets, and_parsed, parse_doc,
  generate_plan_from_pdml,
}
use fast_wireshark.Compare.Expected.{start, finish, serialize_node, Succeeds, is_some}
use fast_wireshark.Compare.Written.{Wrote, Wrote-both, Wrote-succeeds, Wrote-events}
use fast_wireshark.Compare.Document.{
  concat_map, select, is_fast, is_packet, tids, fast_protos, fast_packets_of, plans, plans-append,
  plans_text, plans_text-append, fast_fields-Wrote,
}

module _ (strcase_eq str_eq : Text → Text → Bool) {W : Type 0} (api : TextWriter W)
    (good : Succeeds api) where
  -- What is written, and the counter where there was no error.
  abbrev Counts : List XmlNode → ℕ → W → ℕ → Parsed strcase_eq str_eq api → Type 0
  Counts ns k w count s =
      Wrote strcase_eq str_eq api good plans_text (plans strcase_eq str_eq ns) w
        (s.writer, s.success)
      × (s.success ≡ true → s.fast_packets ≡ (count + k) % 2 ^ 32)

  module _ (s : Parsed strcase_eq str_eq api) (rest : W → ℕ → Parsed strcase_eq str_eq api) where
    -- The counter that the rest starts with, if there is a rest.
    abbrev counted : ℕ
    counted = if s.success then s.fast_packets else 0

    abbrev continued : W → W × Bool
    continued v = ((rest v counted).writer, (rest v counted).success)

    and_parsed-and_if :
        (
          (and_parsed strcase_eq str_eq api s rest).writer,
          (and_parsed strcase_eq str_eq api s rest).success,
        )
        ≡ and_if api (s.writer, s.success) continued
    and_parsed-and_if = elim (Bool-cases s.success) [ inl h ↦ rw h refl | inr h ↦ rw h refl ]

  Counts-then :
      (xs ys : List XmlNode) (j k t count : ℕ) (w : W) (s : Parsed strcase_eq str_eq api)
      (rest : W → ℕ → Parsed strcase_eq str_eq api)
      → Counts xs j w count s
      → ((v : W) (c : ℕ) → c < 2 ^ 32 → Counts ys k v c (rest v c))
      → t ≡ j + k
      → Counts (xs ++ ys) t w count (and_parsed strcase_eq str_eq api s rest)
  Counts-then xs ys j k t count w s rest (wrote, counts) then_counts total =
      let c = counted s rest in
      let below : c < 2 ^ 32 = ground (arith, counts) in
      let after = then_counts s.writer c below in
      (
        rw (and_parsed-and_if s rest, plans-append strcase_eq str_eq xs ys)
            (Wrote-both strcase_eq str_eq api good (λ is js. is ++ js) plans_text plans_text
              plans_text plans_text-append (plans strcase_eq str_eq xs) (plans strcase_eq str_eq ys)
              w (s.writer, s.success) (continued s rest) wrote (λ v. (then_counts v c below).0)),
        ground (arith, counts, after.1, total),
      )

  parse_fast_packet-Counts :
      (n : XmlNode) (w : W) (count : ℕ)
      → Counts
          (tids strcase_eq str_eq n)
          1
          w
          count
          (parse_fast_packet strcase_eq str_eq api n w count)
  unfolding parse_fast_packet
  parse_fast_packet-Counts n w count =
      (fast_fields-Wrote strcase_eq str_eq api good (children_of n) w, λ h. ground (arith, h))

  module _ (n : XmlNode) (ns : XmlNodes) (w : W) (count : ℕ) where
    not_fast :
        is_fast strcase_eq str_eq n ≡ false
        → (select (is_fast strcase_eq str_eq) (cons n ns) ≡ select (is_fast strcase_eq str_eq) ns)
          × (packet_protos strcase_eq str_eq api (cons n ns) w count
              ≡ packet_protos strcase_eq str_eq api ns w count)
    unfolding select packet_protos
    not_fast h = ground (arith, h)

    a_fast :
        is_fast strcase_eq str_eq n ≡ true
        → (select (is_fast strcase_eq str_eq) (cons n ns)
            ≡ n ∷ select (is_fast strcase_eq str_eq) ns)
          × (packet_protos strcase_eq str_eq api (cons n ns) w count
              ≡ and_parsed strcase_eq str_eq api
                  (parse_fast_packet strcase_eq str_eq api n w count)
                  (packet_protos strcase_eq str_eq api ns))
    unfolding select packet_protos
    a_fast h = ground (arith, h)

    not_a_packet :
        is_packet strcase_eq str_eq n ≡ false
        → (select (is_packet strcase_eq str_eq) (cons n ns)
            ≡ select (is_packet strcase_eq str_eq) ns)
          × (doc_packets strcase_eq str_eq api (cons n ns) w count
              ≡ doc_packets strcase_eq str_eq api ns w count)
    unfolding select doc_packets
    not_a_packet h = ground (arith, h)

    a_packet :
        is_packet strcase_eq str_eq n ≡ true
        → (select (is_packet strcase_eq str_eq) (cons n ns)
            ≡ n ∷ select (is_packet strcase_eq str_eq) ns)
          × (doc_packets strcase_eq str_eq api (cons n ns) w count
              ≡ and_parsed strcase_eq str_eq api
                  (parse_packet strcase_eq str_eq api n w count)
                  (doc_packets strcase_eq str_eq api ns))
    unfolding select doc_packets
    a_packet h = ground (arith, h)

  Counts-nothing :
      (w : W) (count : ℕ)
      → count < 2 ^ 32
      → Counts [] 0 w count (record { writer = w; fast_packets = count; success = true })
  unfolding Wrote plans concat_map
  Counts-nothing w count b = ((refl, sym (append-nil (good.events w))), λ h. omega arith)

  packet_protos-Counts :
      (ns : XmlNodes) (w : W) (count : ℕ)
      → count < 2 ^ 32
      → let protos = select (is_fast strcase_eq str_eq) ns in
        Counts
          (concat_map (tids strcase_eq str_eq) protos)
          (length protos)
          w
          count
          (packet_protos strcase_eq str_eq api ns w count)
  unfolding select concat_map packet_protos
  packet_protos-Counts nil w count b = Counts-nothing w count b
  packet_protos-Counts (cons n ns) w count b = elim (Bool-cases (is_fast strcase_eq str_eq n)) [
    | inl h ↦
        let (is, does) = a_fast n ns w count h in
        let protos = select (is_fast strcase_eq str_eq) ns in
        rw (is, does)
          (Counts-then (tids strcase_eq str_eq n) (concat_map (tids strcase_eq str_eq) protos) 1
            (length protos) (suc (length protos)) count w
            (parse_fast_packet strcase_eq str_eq api n w count)
            (packet_protos strcase_eq str_eq api ns) (parse_fast_packet-Counts n w count)
            (packet_protos-Counts ns) (omega arith))
    | inr h ↦
        let (is, does) = not_fast n ns w count h in
        rw (is, does) (packet_protos-Counts ns w count b)
  ]

  concat_map-append :
      (xs ys : List XmlNode)
      → concat_map (tids strcase_eq str_eq) (xs ++ ys)
        ≡ concat_map (tids strcase_eq str_eq) xs ++ concat_map (tids strcase_eq str_eq) ys
  unfolding concat_map
  concat_map-append [] ys = refl
  concat_map-append (x ∷ xs) ys = cc (
    concat_map-append xs ys,
    append_assoc (tids strcase_eq str_eq x) (concat_map (tids strcase_eq str_eq) xs)
        (concat_map (tids strcase_eq str_eq) ys),
  )

  doc_packets-Counts :
      (ns : XmlNodes) (w : W) (count : ℕ)
      → count < 2 ^ 32
      → let protos =
          concat_map (fast_protos strcase_eq str_eq) (select (is_packet strcase_eq str_eq) ns) in
        Counts
          (concat_map (tids strcase_eq str_eq) protos)
          (length protos)
          w
          count
          (doc_packets strcase_eq str_eq api ns w count)
  unfolding select concat_map doc_packets parse_packet
  doc_packets-Counts nil w count b = Counts-nothing w count b
  doc_packets-Counts (cons n ns) w count b = elim (Bool-cases (is_packet strcase_eq str_eq n)) [
    | inl h ↦
        let (is, does) = a_packet n ns w count h in
        let here = fast_protos strcase_eq str_eq n in
        let protos =
          concat_map (fast_protos strcase_eq str_eq) (select (is_packet strcase_eq str_eq) ns) in
        rw (is, does, concat_map-append here protos, length-append here protos)
          (Counts-then (concat_map (tids strcase_eq str_eq) here)
            (concat_map (tids strcase_eq str_eq) protos) (length here) (length protos)
            (length here + length protos) count w (parse_packet strcase_eq str_eq api n w count)
            (doc_packets strcase_eq str_eq api ns) (packet_protos-Counts (children_of n) w count b)
            (doc_packets-Counts ns) refl)
    | inr h ↦
        let (is, does) = not_a_packet n ns w count h in
        rw (is, does) (doc_packets-Counts ns w count b)
  ]

  module _ (root : XmlNode) (w : W) where
    abbrev started : W
    started = (api.start_element (codes "Plan") w).0

    abbrev parsed : Parsed strcase_eq str_eq api
    parsed = doc_packets strcase_eq str_eq api (children_of root) started 0

    generated : generate_plan_from_pdml strcase_eq str_eq api (some (some root)) w ≡ (
        if parsed.success
        then record parsed { writer = close_and_write_xml_output api parsed.writer }
        else parsed)
    unfolding generate_plan_from_pdml init_xml_writer parse_doc close_and_write_xml_output
    generated = ground (arith, good.started (codes "Plan") w)

    closed :
        parsed.success ≡ true
        → generate_plan_from_pdml strcase_eq str_eq api (some (some root)) w
          ≡ record parsed { writer = close_and_write_xml_output api parsed.writer }
    closed h = generated ∙ rw h refl

    close_and_write_xml_output-events :
        (v : W) → good.events (close_and_write_xml_output api v) ≡ good.events v ++ (finish ∷ [])
    unfolding close_and_write_xml_output
    close_and_write_xml_output-events v = good.finish_events v

    -- For a document with a root, and a writer whose calls succeed, `generate_plan_from_pdml`
    -- succeeds exactly if every message in it has a plan, that is if no field of it has a
    -- malformed type; the messages are the tid fields of the fast protocols of the packets,
    -- without texts and comments. Then it has written the element Plan with the trees of the
    -- messages, with every element closed, and has counted the fast protocols, modulo 2 ^ 32.
    pub generate_plan_from_pdml_lem :
        let s = generate_plan_from_pdml strcase_eq str_eq api (some (some root)) w in
        let packets = fast_packets_of strcase_eq str_eq root in
        let messages = plans strcase_eq str_eq (concat_map (tids strcase_eq str_eq) packets) in
        (s.success ≡ is_some messages)
        × ((is : List Info)
            → messages ≡ some is
            → (good.events s.writer
                ≡ good.events w
                  ++ ((start (codes "Plan") ∷ concat_map serialize_node is) ++ (finish ∷ [])))
              × (s.fast_packets ≡ length packets % 2 ^ 32))
    generate_plan_from_pdml_lem =
        let text = plans_text in
        let messages =
          plans strcase_eq str_eq
            (concat_map (tids strcase_eq str_eq) (fast_packets_of strcase_eq str_eq root)) in
        let (wrote, counts) = doc_packets-Counts (children_of root) started 0 (omega arith) in
        let r : W × Bool = (parsed.writer, parsed.success) in
        let done = Wrote-succeeds strcase_eq str_eq api good text started r messages wrote in
        (
          ground (arith, done, generated),
          λ is e.
              let ok : parsed.success ≡ true = done ∙ ap is_some e in
              rw (closed ok) (
                cc (
                  close_and_write_xml_output-events parsed.writer,
                  Wrote-events strcase_eq str_eq api good text started r messages is wrote e,
                  good.start_events (codes "Plan") w,
                  append_assoc (good.events w) (start (codes "Plan") ∷ []) (text is),
                  append_assoc (good.events w) (start (codes "Plan") ∷ text is) (finish ∷ []),
                ),
                omega (arith, counts ok),
              ),
        )
