-- ===== src/Shared.antt =====
-- shipzen_common (and the slug of controller/main.py): what the API, the worker and the controller
-- share.
pub mod Slug
pub mod Hostnames
pub mod RepoConfig
pub mod Sizes
