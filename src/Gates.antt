-- ===== src/Gates.antt =====
-- src/gates: the catalog of gates and the runner that gives each its verdict.
pub mod Runner
