-- ===== src/Store/Document.antt =====
-- The document of a store, and the checks of `_read_locked` behind `json.loads`.
use Prim.Native.String.{◌++◌}
use drive_sanitization_manag.Prelude.{
  String, Bool, false, not, List, [], ◌∷◌, Option, some, all, map, ◌==◌, codes, has_duplicates,
  same_texts, Result, ok, err, ◌>>=◌, ◌>>◌, guard,
}
use drive_sanitization_manag.Value.{
  Value, int, pos, text, arr, obj, Items, nil, cons, to_items, end, field, lookup_field, has_keys,
  int_eq,
}
use drive_sanitization_manag.Platform.{Platform}
use drive_sanitization_manag.Sort.{sort}
use drive_sanitization_manag.Store.{
  Layout, StoreError, document_invalid, entry_shape_invalid, entry_invalid, ids_unsorted,
  values_duplicated, hash_invalid, plain_text,
}

abbrev pub document_keys : List String
document_keys = "policy_version" ∷ "schema_version" ∷ "entries" ∷ "store_hash" ∷ []

-- `_canonical_hash`
unfoldable pub ascii_hash : Platform → Value → String
ascii_hash p v = "sha256:" ++ p.digest_ascii v

module _ (p : Platform) {E : Type 0} (l : Layout E) where
  abbrev pub ids : List E → List String
  ids es = map l.id es

  -- No two entries share an attribute.
  abbrev pub all_unique : List (E → String) → List E → Bool
  all_unique attributes es = all (λ a. not (has_duplicates (map a es))) attributes

  abbrev pub entries_value : List E → Value
  entries_value es = arr (to_items (map l.value es))

  -- The payload that the store hash covers.
  abbrev pub store_payload : List E → Value
  store_payload es = obj (
      field "entries" (entries_value es)
        (field "policy_version" (text l.policy) (field "schema_version" (int (pos 1)) end)))

  abbrev pub store_hash : List E → String
  store_hash es = ascii_hash p (store_payload es)

  -- The document that `_write_locked` encodes.
  abbrev pub document : List E → Value
  document es = obj (
      field "entries" (entries_value es) (
        field "policy_version" (text l.policy)
          (field "schema_version" (int (pos 1)) (field "store_hash" (text (store_hash es)) end))))

  unfoldable pub decode_entry : Value → Result StoreError E
  decode_entry (obj fs) = do
    guard (has_keys l.field_names fs) entry_shape_invalid
    e ← l.of_fields fs
    guard (l.valid e) entry_invalid
    ok e
  decode_entry _ = err entry_shape_invalid

  unfoldable pub decode_entries : Items → Result StoreError (List E)
  decode_entries nil = ok []
  decode_entries (cons v vs) = do e ← decode_entry v; es ← decode_entries vs; ok (e ∷ es)

  abbrev pub is_policy : Option Value → Bool
  is_policy (some (text s)) = s == l.policy
  is_policy _ = false

  abbrev pub is_schema : Option Value → Bool
  is_schema (some (int n)) = int_eq n (pos 1)
  is_schema _ = false

  -- The checks of the entries together, and of the hash of the whole.
  unfoldable pub check_entries : String → List E → Result StoreError (List E)
  check_entries hash es = do
    guard (same_texts (ids es) (sort codes (ids es))) ids_unsorted
    guard (not (has_duplicates (ids es))) ids_unsorted
    guard (all_unique l.unique es) values_duplicated
    guard (hash == store_hash es) hash_invalid
    ok es

  abbrev pub decode_body : Option Value → Option Value → Result StoreError (List E)
  decode_body (some (arr vs)) (some (text hash)) = do
    guard (plain_text hash) document_invalid
    es ← decode_entries vs
    check_entries hash es
  decode_body _ _ = err document_invalid

  unfoldable pub decode : Value → Result StoreError (List E)
  decode (obj fs) = do
    guard (has_keys document_keys fs) document_invalid
    guard (is_policy (lookup_field "policy_version" fs)) document_invalid
    guard (is_schema (lookup_field "schema_version" fs)) document_invalid
    decode_body (lookup_field "entries" fs) (lookup_field "store_hash" fs)
  decode _ = err document_invalid
