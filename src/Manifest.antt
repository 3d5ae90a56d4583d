-- ===== src/Manifest.antt =====
-- src/manifest.c: the checks of a system manifest. Of them the check of the dependencies between
-- partitions is here.
pub mod Dependencies
