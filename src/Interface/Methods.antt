-- ===== src/Interface/Methods.antt =====
-- The results of the methods, by the text of each.
pub mod Options
pub mod Database
pub mod Iterators
