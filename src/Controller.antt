-- ===== src/Controller.antt =====
-- controller/main.py: the controller, which makes the cluster match the tables.
pub mod Release
pub mod Scaling
pub mod Manifest
pub mod Sweep
pub mod Leader
pub mod Projects
pub mod Vanity
