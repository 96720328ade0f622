-- ===== src/Compare/Writer.antt =====
-- xmlPlanWriter.c: the plan file is written through libxml2's writer, which is a parameter.
use fast_wireshark.Base.{Bool, true, false, Option, none, some}
use fast_wireshark.Compare.{Text, codes}

-- The writer's state and its calls, each with whether the result is not negative.
pub record TextWriter (W : Type 0) : Type 0 where
  pub start_element : Text → W → W × Bool
  pub write_attribute : Text → Text → W → W × Bool
  pub end_element : W → W × Bool
  pub end_document : W → W × Bool

module _ {W : Type 0} (api : TextWriter W) where
  -- What follows a call if it has succeeded.
  abbrev pub and_if : W × Bool → (W → W × Bool) → W × Bool
  and_if (w, false) k = (w, false)
  and_if (w, true) k = k w

  abbrev pub add_value : Option Text → W → W × Bool
  add_value none w = (w, true)
  add_value (some value) w = api.write_attribute (codes "value") value w

  unfoldable pub write_nested_type : Text → Option Text → W → W × Bool
  write_nested_type type value w = and_if (api.start_element type w) (add_value value)

  unfoldable pub close_nested_type : W → W × Bool
  close_nested_type w = api.end_element w

  unfoldable pub write_field : Text → Option Text → W → W × Bool
  write_field type value w =
      and_if (and_if (api.start_element type w) (add_value value)) api.end_element

  -- `initXMLWriter` for a writer that `xmlNewTextWriterFilename` gives and in which the document
  -- is started.
  unfoldable pub init_xml_writer : W → W × Bool
  init_xml_writer w = api.start_element (codes "Plan") w

  -- The result of `xmlTextWriterEndDocument` is only reported.
  unfoldable pub close_and_write_xml_output : W → W
  close_and_write_xml_output w = (api.end_document w).0
