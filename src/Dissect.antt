-- ===== src/Dissect.antt =====
-- dissect.c: the dissection of a message along its template.
pub mod Node
pub mod Operators
pub mod Optional
pub mod Numbers
pub mod Text
pub mod Tree
pub mod Message
pub mod Moves
pub mod Safety
pub mod TreeSafety
