-- ===== src/Storage/Tests.antt =====
-- Runs of the interactive tool of cmd/storage on concrete inputs.
use dps_files.Storage.CommandLine.Accepted.{parse_cli_sound}
use dps_files.Storage.CommandLine.Words.{SpellsAll}
use dps_files.Prelude.{
  ◌^◌, ◌/◌, ◌*◌, ◌+◌, ◌-◌, length, has_suffix, [], ◌∷◌, refl, text, ◌≡◌, arith, list_eq, nat_eq,
  List, trim_space,
}
use dps_files.KeyStore.Files.{block_data, local_meta_data}
use dps_files.KeyStore.Exec.{remove_if_present}
use dps_files.KeyStore.Types.{Store}
use dps_files.Storage.Actions.{Target}
use dps_files.KeyStore.Samples.{source_path, hello, empty, plain}
use dps_files.Prelude.Map.{lookup, erase}
use dps_files.KeyStore.Cleaning.{erase_in}
use dps_files.KeyStore.Start.{reload_local_state}
use dps_files.Storage.CommandLine.{default_config, parse_cli, parsed, settle_ttl, remote, upload}
use dps_files.Storage.CommandLine.Settings.{
  Setting, ttl, in_mode, do_action, store_path, verbose, apply_all, IsCommandLine,
}
use dps_files.Storage.CommandLine.Written.{write_settings, parse_cli-write_settings}
use dps_files.Storage.Menu.{Lines}
use dps_files.Storage.View.{calculate_last_chunk_size, printed_last_chunk}
use dps_files.Storage.View.LastChunk.{last_chunk_sizes}
use dps_files.Storage.Files.{DeepCleanResult, deep_clean_storage}
use dps_files.Storage.Files.DeepClean.{IsCleaned}
use dps_files.Storage.Files.Reload.{deep_clean-reload}

-- `remote upload --ttl-seconds 60 -v --store-path a`
abbrev settings : List Setting
settings = in_mode remote ∷ do_action upload ∷ ttl 60 ∷ verbose ∷ store_path (text "a") ∷ []

settings-IsCommandLine : IsCommandLine settings
unfolding trim_space
settings-IsCommandLine =
    ((tt, (tt, ((omega arith, omega arith), (tt, (refl, tt))))), omega arith, omega arith)

parse_cli-write_settings_example :
    parse_cli (write_settings settings) default_config
    ≡ parsed (settle_ttl (apply_all settings default_config))
parse_cli-write_settings_example =
    parse_cli-write_settings settings default_config settings-IsCommandLine

parse_cli_sound_example :
    (xs : List Setting) × SpellsAll (write_settings settings) xs
    × IsCommandLine xs
    × (settle_ttl (apply_all settings default_config) ≡ settle_ttl (apply_all xs default_config))
parse_cli_sound_example =
    parse_cli_sound (write_settings settings) default_config
      (settle_ttl (apply_all settings default_config))
      (parse_cli-write_settings settings default_config settings-IsCommandLine)

abbrev typed : Lines
typed = text "nonsense" ∷ text "view" ∷ text " Verify " ∷ text "q" ∷ []

abbrev full : Store
full = record empty {
  disk =
      (text "store" ∷ text "data" ∷ text "a.kdht" ∷ [], text "a")
      ∷ (text "store" ∷ text "data" ∷ text "b" ∷ [], text "b")
      ∷ (text "store" ∷ text "metadata" ∷ text "c.toml" ∷ [], text "c")
      ∷ [];
}

abbrev counted : DeepCleanResult
counted = record { removed_kdht = 1; removed_metadata = 1; removed_cache = 0 }

deep_clean-reload_example :
    let t = (deep_clean_storage (text "store" ∷ []) full).1 in
    ((reload_local_state plain t).1.files ≡ [])
    × ((reload_local_state plain t).1.files_by_name ≡ [])
    × IsCleaned (text "store" ∷ []) t
unfolding deep_clean_storage reload_local_state list_eq nat_eq has_suffix remove_if_present lookup
    erase erase_in
deep_clean-reload_example = deep_clean-reload plain full counted refl refl

abbrev target : Target
target = record { path = source_path; permissions = 420; random = [] }

last_chunk_sizes_example :
    let md = local_meta_data plain (text "a.txt") hello empty in
    let last = length (block_data md hello (md.total_blocks - 1)) in
    (calculate_last_chunk_size md ≡ last)
    × (printed_last_chunk md ≡ last + md.block_size * (md.total_blocks - 1) / 2 ^ 32 * 2 ^ 32)
last_chunk_sizes_example =
    last_chunk_sizes plain (text "a.txt") hello empty (omega arith) (omega arith)
