-- ===== src/Parser.antt =====
-- parse-template.c: the tree of field types from a template file.
-- libxml2 reads the file: its tree and its comparison of names are parameters, as GLib's readers of
-- numbers are. The errors that are logged are kept with their number and line, without their texts.
pub mod Xml
pub mod Operator
pub mod Tree
pub mod Templates
pub mod Keeps
pub mod Shape
pub mod Parts
pub mod FieldShape
pub mod WalkShape
pub mod Document
pub mod Marked
