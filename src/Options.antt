-- ===== src/Options.antt =====
-- The option objects of the binding: write options, read options and database options.
pub mod Write
pub mod Read
pub mod Db
pub mod Parse
