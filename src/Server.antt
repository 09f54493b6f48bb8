-- ===== src/Server.antt =====
-- The lifecycle of the server: the admission of changes before it shuts down.
pub mod Admission
pub mod Closing
