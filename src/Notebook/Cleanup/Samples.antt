-- ===== src/Notebook/Cleanup/Samples.antt =====
-- A cleanup of internal/notebook/checkpoint.go over a list of keys.
use slivingdoc.Base.{
  ◌≡◌, refl, true, some, List, [], ◌∷◌, Bytes, codes, bytes_eq, bytes_beq, has_prefix,
  if◌then◌else◌, contains, take, drop, split,
}
use slivingdoc.Storage.Key.{decimal, decimal_from}
use slivingdoc.Storage.Samples.{plain_ids}
use slivingdoc.Storage.Parse.{
  parse_key, parse_segments, key_of_file, key_of_body, key_of_parts, kind_named, cut_suffix, cut,
  or_err, parse_generation, all_digits, digits_value, parse_uint, key_uuid, parse_uuid_v7,
}
use slivingdoc.Notebook.Cleanup.{
  CleanupStore, candidates, unreferenced, delete_batch, run_batches, cleanup_packs,
}
use slivingdoc.Notebook.Cleanup.Safe.{Call, recorded, AreSafe, cleanup_packs-AreSafe}

abbrev with_prefix : Bytes → List Bytes → List Bytes
with_prefix p [] = []
with_prefix p (k ∷ ks) = let rest = with_prefix p ks in if has_prefix k p then k ∷ rest else rest

abbrev old_key : Bytes
old_key = codes "packs/increments/2-q.pack"

abbrev live_key : Bytes
live_key = codes "packs/increments/3-r.pack"

-- A store of keys, of which one is referenced.
abbrev key_store : CleanupStore (List Bytes)
key_store = record {
  list_objects = λ s prefix. (some (with_prefix prefix s), s);
  delete_objects = λ s keys. (true, unreferenced keys s);
  roots = λ s. (some (live_key ∷ []), s);
}

abbrev stored_keys : List Bytes
stored_keys = old_key ∷ live_key ∷ codes "notes.txt" ∷ []

cleaned : cleanup_packs (recorded key_store) plain_ids 3 (stored_keys, []) ≡ (
  live_key ∷ codes "notes.txt" ∷ [],
  Call.delete_call (old_key ∷ [])
      ∷ Call.roots_call (some (live_key ∷ []))
      ∷ Call.list_call (codes "packs/increments/")
      ∷ Call.list_call (codes "packs/checkpoints/")
      ∷ [],
)
unfolding cleanup_packs candidates unreferenced delete_batch run_batches has_prefix contains take
    drop split bytes_beq decimal decimal_from parse_key parse_segments key_of_file key_of_body
    key_of_parts kind_named cut_suffix cut or_err parse_generation all_digits digits_value
    parse_uint key_uuid parse_uuid_v7
cleaned = refl

cleanup_packs-AreSafe_example :
    AreSafe plain_ids 3 (cleanup_packs (recorded key_store) plain_ids 3 (stored_keys, [])).1
cleanup_packs-AreSafe_example = cleanup_packs-AreSafe plain_ids 3 key_store stored_keys
