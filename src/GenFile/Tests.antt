-- ===== src/GenFile/Tests.antt =====
-- Runs of the test file generator on concrete inputs.
use dps_files.Prelude.{some, ◌≡◌, arith, list_eq, nat_eq, ◌^◌, ◌*◌}
use dps_files.GenFile.{parse_size, default_size_label}
use dps_files.GenFile.Label.{parse_size-default_size_label}

parse_size-default_size_label_example :
    parse_size (default_size_label (3 * 2 ^ 20)) ≡ some (3 * 2 ^ 20)
parse_size-default_size_label_example = parse_size-default_size_label (3 * 2 ^ 20) (omega arith)
