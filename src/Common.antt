-- ===== src/Common.antt =====
-- The names that the other modules share: the libraries', passed on, and those of the children.
mod Tests
mod Names
mod Lists
pub mod Int
pub mod Act
pub mod Assoc
pub use Names.*
pub use Tests.*
pub use Lists.*
