-- ===== src/KeyStore/Types/Paths.antt =====
-- The paths that the store derives from keys and hashes.
use mathlib.Core.List.{append_cancel_left, append_cancel_right, append_assoc}
use dps_files.Prelude.{
  ◌≡◌, ◌≢◌, sym, ◌∙◌, Bytes, [], ◌∷◌, ◌++◌, text, hex_encode, hex_encode-injective, head-injective,
  tail-injective,
}
use dps_files.KeyStore.Types.{
  KeyStoreConfig, get_local_block_location, metadata_path, cache_path_for_hash, intent_path,
}

pub block_path :
    (c : KeyStoreConfig) (k : Bytes)
    → get_local_block_location c k
      ≡ c.storage_dir ++ (text "data" ∷ (hex_encode k ++ text ".kdht") ∷ [])
unfolding get_local_block_location
block_path c k = append_assoc c.storage_dir (text "data" ∷ []) ((hex_encode k ++ text ".kdht") ∷ [])

-- Chunks of different keys have different paths.
pub get_local_block_location-injective :
    (c : KeyStoreConfig) (j k : Bytes)
    → get_local_block_location c j ≡ get_local_block_location c k
    → j ≡ k
get_local_block_location-injective c j k h =
    let e = append_cancel_left c.storage_dir _ _ (sym (block_path c j) ∙ h ∙ block_path c k) in
    hex_encode-injective j k
      (append_cancel_right _ _ (text ".kdht") (head-injective (tail-injective e)))

pub block-ne-metadata_path :
    (c : KeyStoreConfig) (k hash : Bytes) → get_local_block_location c k ≢ metadata_path c hash
unfolding metadata_path
block-ne-metadata_path c k hash h =
    let e = append_cancel_left c.storage_dir _ _ (sym (block_path c k) ∙ h) in
    let d = head-injective e in cc

pub block-ne-cache_path :
    (c : KeyStoreConfig) (k hash : Bytes)
    → get_local_block_location c k ≢ cache_path_for_hash c hash
unfolding cache_path_for_hash
block-ne-cache_path c k hash h =
    let e = append_cancel_left c.storage_dir _ _ (sym (block_path c k) ∙ h) in
    let d = head-injective e in cc

pub block-ne-intent_path :
    (c : KeyStoreConfig) (k hash : Bytes) → get_local_block_location c k ≢ intent_path c hash
unfolding intent_path
block-ne-intent_path c k hash h =
    let e = append_cancel_left c.storage_dir _ _ (sym (block_path c k) ∙ h) in
    let d = head-injective e in cc
