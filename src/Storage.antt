-- ===== src/Storage.antt =====
-- apps/api/evidencedesk_api/storage.py: `LocalDocumentStorage` under the keys that
-- `build_storage_key` makes, as the files that the root directory holds.
use evidencedesk.Prelude.{
  ◌≡◌, ◌↔◌, Bytes, Bool, true, false, Option, none, some, List, [], ◌∷◌, arith, ◌==◌, ◌&&◌,
  if◌then◌else◌,
}
use evidencedesk.Db.{Suffix, StorageKey, StoredFile}

abbrev same_suffix : Suffix → Suffix → Bool
same_suffix Suffix.pdf Suffix.pdf = true
same_suffix Suffix.txt Suffix.txt = true
same_suffix Suffix.md Suffix.md = true
same_suffix _ _ = false

unfoldable pub same_key : StorageKey → StorageKey → Bool
same_key a b = a.owner == b.owner && same_suffix a.suffix b.suffix

pub same_key_iff : (a b : StorageKey) → (same_key a b ≡ true) ↔ (a ≡ b)
unfolding same_key
same_key_iff a b = ground arith

-- `LocalDocumentStorage.get`: `none` is the `OSError` of a file that is not there.
unfoldable pub get : StorageKey → List StoredFile → Option Bytes
get key [] = none
get key (f ∷ files) = if same_key f.key key then some f.content else get key files

-- `LocalDocumentStorage.delete`, as the files that are left where no `OSError` of `exists` or `unlink`
-- leaves it; the handlers have a case for one.
unfoldable pub delete : StorageKey → List StoredFile → List StoredFile
delete key [] = []
delete key (f ∷ files) =
    let rest = delete key files in if same_key f.key key then rest else f ∷ rest

-- `LocalDocumentStorage.put`
unfoldable pub put : StorageKey → Bytes → List StoredFile → List StoredFile
unfolding delete
put key content files = record { key = key; content = content } ∷ delete key files

pub get-delete :
    (j k : StorageKey) (files : List StoredFile)
    → get j (delete k files) ≡ (if same_key k j then none else get j files)
unfolding get delete
get-delete j k [] = ground arith
get-delete j k (f ∷ files) =
    ground
      (arith, get-delete j k files, same_key_iff f.key k, same_key_iff f.key j, same_key_iff k j)

pub get-put :
    (j k : StorageKey) (content : Bytes) (files : List StoredFile)
    → get j (put k content files) ≡ (if same_key k j then some content else get j files)
unfolding get put
get-put j k content files = ground (arith, get-delete j k files)
