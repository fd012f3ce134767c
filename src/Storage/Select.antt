-- ===== src/Storage/Select.antt =====
-- The prompts of cmd/storage for a file: menu.go (promptUploadSelection, resolveStorePath,
-- promptMetadataReassemblySelection) and the loops of delete.go and stream.go.
use dps_files.Prelude.{
  get_elem?, length, list_eq, nat_eq, [], atoi, eqb, text, to_lower, trim_space, ◌==◌, Option,
  contains, if◌then◌else◌, ◌∷◌, Bool, Bytes, List, true, false, none, some, negative, nonnegative,
}
use dps_files.Storage.CommandLine.{RuntimeConfig}
use dps_files.Storage.Menu.{
  Lines, Answer, chosen, failed, is_cancel, menu_back, no_files, index_out_of_range, path_required,
  no_path,
}

is_all : Bytes → Bool
is_all choice = contains choice (text "all" ∷ text "a" ∷ text "*" ∷ [])

module _ {ℓ} {A : Type ℓ} where
  -- `strconv.Atoi(choice)`, and the test against the length
  unfoldable pub entry_at : Bytes → List A → Option A
  entry_at choice entries = elim (atoi choice) [
    | none ↦ none
    | some negative ↦ none
    | some (nonnegative i) ↦ get_elem? entries i
  ]

  -- The loop of executeDeleteAction, executeDownloadAction and their remote forms; `none` is the end
  -- of the input.
  unfoldable pub select_entry : List A → Lines → Answer (Option A) × Lines
  unfolding entry_at
  select_entry entries [] = (chosen none, [])
  select_entry entries (line ∷ rest) =
      let choice = trim_space line in
      let again = select_entry entries rest in
      elim (is_cancel choice) [
        | true ↦ (failed menu_back, rest)
        | false ↦ elim (entry_at choice entries) [ some e ↦ (chosen (some e), rest) | none ↦ again ]
      ]

  -- the loop of promptUploadSelection
  unfoldable pub select_uploads : A → List A → Lines → Answer (List A) × Lines
  unfolding is_all entry_at
  select_uploads default files [] = (chosen (default ∷ []), [])
  select_uploads default files (line ∷ rest) =
      let choice = trim_space (to_lower line) in
      let again = select_uploads default files rest in
      if choice == []
      then (chosen (default ∷ []), rest)
      else if choice == text "e"
      then (failed menu_back, rest)
      else if is_all choice
      then (chosen files, rest)
      else elim (entry_at choice files) [ some f ↦ (chosen (f ∷ []), rest) | none ↦ again ]

  -- the loop of promptMetadataReassemblySelection
  unfoldable pub select_metadata : List A → Lines → Answer (List A) × Lines
  unfolding is_all entry_at
  select_metadata metadata [] = (chosen [], [])
  select_metadata metadata (line ∷ rest) =
      let choice = to_lower (trim_space line) in
      let again = select_metadata metadata rest in
      if choice == text "e"
      then (failed menu_back, rest)
      else if contains choice ([] ∷ text "none" ∷ text "n" ∷ [])
      then (chosen [], rest)
      else if is_all choice
      then (chosen metadata, rest)
      else elim (entry_at choice metadata) [ some md ↦ (chosen (md ∷ []), rest) | none ↦ again ]

  -- promptMetadataReassemblySelection
  unfoldable pub prompt_metadata_reassembly_selection :
      (interactive : Bool) → List A → Lines → Answer (List A) × Lines
  unfolding select_metadata
  prompt_metadata_reassembly_selection interactive [] lines = (chosen [], lines)
  prompt_metadata_reassembly_selection interactive (md ∷ metadata) lines =
      if interactive then select_metadata (md ∷ metadata) lines else (chosen [], lines)

-- promptUploadSelection
unfoldable pub prompt_upload_selection :
    (interactive : Bool) → RuntimeConfig → List Bytes → Lines → Answer (List Bytes) × Lines
unfolding select_uploads
prompt_upload_selection interactive c files lines =
    if eqb (length files) 0
    then (failed no_files, lines)
    else if c.run_all
    then (chosen files, lines)
    else elim (get_elem? files c.default_file_index) [
      | none ↦ (failed index_out_of_range, lines)
      | some default ↦
          (if interactive
            then select_uploads default files lines
            else (chosen (default ∷ []), lines))
    ]

-- the loop of resolveStorePath, before `filepath.Clean`
unfoldable pub ask_path : Lines → Answer Bytes × Lines
ask_path [] = (failed no_path, [])
ask_path (line ∷ rest) =
    let candidate = trim_space line in
    let again = ask_path rest in
    if candidate == []
    then again
    else if is_cancel candidate
    then (failed menu_back, rest)
    else (chosen candidate, rest)

-- resolveStorePath, before `filepath.Clean`
unfoldable pub resolve_store_path :
    (interactive : Bool) → RuntimeConfig → Lines → Answer Bytes × Lines
unfolding ask_path
resolve_store_path interactive c lines =
    if c.store_file_path == []
    then (if interactive then ask_path lines else (failed path_required, lines))
    else (chosen c.store_file_path, lines)
