-- ===== src/Compare.antt =====
-- util/rwcompare: the tool that runs a regression test and compares the plan file it gets with the
-- expected one. A text is the list of its bytes, without the terminator.
-- The nodes of libxml2 are trees: a node has a name, a line, what `xmlGetProp` gives for its
-- attributes, and its children. A list of nodes is a node with those that follow it by `next`.
pub mod Plan
pub mod Equivalence
pub mod Writer
pub mod Pdml
pub mod Expected
pub mod Written
pub mod Document
pub mod Counted
pub mod Options
pub mod Command
pub mod Flow
pub mod Files
pub mod Success
use Prim.Native.Char.{code}
use Prim.Native.String.{String}
use fast_wireshark.Base.{ℕ, Bool, true, false, ◌&&◌, ◌||◌, ◌==◌, List, [], ◌∷◌, Option, none, some}

abbrev pub Text : Type 0
Text = List ℕ

-- The bytes of a literal, which is ASCII.
abbrev pub codes : String → Text
codes String.[] = []
codes (String.◌∷◌ c s) = code c ∷ codes s

-- `strcmp` with the result 0.
abbrev pub text_eq : Text → Text → Bool
text_eq [] [] = true
text_eq (a ∷ s) (b ∷ t) = (a == b) && text_eq s t
text_eq _ _ = false

mutual
  pub data XmlNode : Type 0 where
    element : Text → ℕ → (Text → Option Text) → XmlNodes → XmlNode

  pub data XmlNodes : Type 0 where
    nil : XmlNodes
    cons : XmlNode → XmlNodes → XmlNodes

abbrev pub name_of : XmlNode → Text
name_of (element name line prop children) = name

abbrev pub line_of : XmlNode → ℕ
line_of (element name line prop children) = line

abbrev pub get_prop : XmlNode → Text → Option Text
get_prop (element name line prop children) = prop

abbrev pub children_of : XmlNode → XmlNodes
children_of (element name line prop children) = children

-- `xmlStrcmp` and `xmlStrcasecmp` with the result 0, where the first text may be null.
abbrev pub matches : (Text → Text → Bool) → Option Text → Text → Bool
matches eq none b = false
matches eq (some a) b = eq a b

-- `strcase_eq` is `xmlStrcasecmp` with the result 0, for two texts.
module _ (strcase_eq : Text → Text → Bool) where
  unfoldable pub ignore_xml_node : XmlNode → Bool
  ignore_xml_node n =
      strcase_eq (name_of n) (codes "text") || strcase_eq (name_of n) (codes "comment")
