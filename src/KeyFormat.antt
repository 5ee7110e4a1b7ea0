-- ===== src/KeyFormat.antt =====
-- kmi/key_format_ltfs.c: the list of data keys and their identifiers that a key manager plug-in is
-- given as text, and the states of the module that reads it.
pub mod Syntax
pub mod State
pub mod Print
pub mod Parse
pub mod Find
mod Tests
pub use Syntax.*
pub use State.*
