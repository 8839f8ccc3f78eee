-- ===== src/Yajl/Parse/Laws.antt =====
-- The callbacks for the events of an object.
pub mod Steps
pub mod Deep
pub mod Run
pub mod Root
pub mod Fails
pub mod Document
