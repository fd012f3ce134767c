-- ===== src/Storage/Actions/Whole.antt =====
-- executeStoreTargets of cmd/storage/store.go on a new file, when no call of the operating system fails.
use dps_files.Prelude.{list_eq, nat_eq}
use dps_files.Prelude.Map.{Map}
