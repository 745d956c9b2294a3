-- ===== src/Lang.antt =====
-- The compiler, lang/.
pub mod NodeType
pub mod Layout
pub mod Stacker
pub mod Node
pub mod Operators
pub mod Names
pub mod Annotations
pub mod Morph
pub mod Var
pub mod Stran
