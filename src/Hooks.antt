-- ===== src/Hooks.antt =====
-- hghooks/mozhghooks: the runner of the checks (Extension), the checks for new roots (Roots) and
-- for subrepositories (Subrepos), the other checks (Checks), and the hooks that stand alone
-- (Guards, Manifests, Protected).
pub mod Checks
pub mod Manifests
pub mod Protected
pub mod Extension
pub mod Roots
pub mod Subrepos
pub mod Guards
mod Tests
