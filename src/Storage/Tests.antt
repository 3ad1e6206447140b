-- ===== src/Storage/Tests.antt =====
-- Runs of plugins/storage/fs/src/hopeit/fs_storage/__init__.py on a storage with a folder for a month.
use hopeit_engine.Common.{
  none, ◌⊎◌, inl, inr, split, some, String, [], ◌∷◌, Result, ok, err, ◌≡◌, refl, if◌then◌else◌,
  str_eq,
}
use hopeit_engine.Common.Dict.{insert}
use hopeit_engine.Storage.Paths.{◌++◌, dirname, rstrip, lstrip, before_slash}
use hopeit_engine.Storage.{
  FileStorage, new_storage, Files, file_not_found, store, get, get_file, store_file, delete,
  partition_key, save_file, save_ops, payload_of, file_path, partition_path,
}
use hopeit_engine.Storage.Saved.{IsPart, IsBase, store-get}
use hopeit_engine.Storage.Writing.{save_file-atomic}

abbrev monthly : FileStorage
unfolding new_storage
monthly = new_storage "data" (some "/%Y/%m/")

abbrev parse : String → Result String String
parse s = ok s

abbrev before : Files
before = ("data/2024/05/a.json", "old") ∷ ("data/2024/05/b.json", "other") ∷ []

store_a :
    store {X = String} (λ (s : String). s) monthly "a" "new" "2024/05" "f00" before
    ≡ ok (
      ("data/2024/05/a.json", "new") ∷ ("data/2024/05/b.json", "other") ∷ [],
      "data/2024/05/a.json",
    )
unfolding store insert new_storage
store_a = refl

key_of_a : partition_key monthly "data/2024/05/a.json" ≡ "2024/05"
unfolding partition_key new_storage
key_of_a = refl

dirname_of_roots : (dirname "/a" ≡ "/") × (dirname "a" ≡ "") × (dirname "a//b" ≡ "a")
unfolding dirname ◌++◌
dirname_of_roots = (refl, refl, refl)

delete_missing :
    delete {X = String} monthly "2024/05" ("b" ∷ "c" ∷ "a" ∷ []) before
    ≡ (("data/2024/05/a.json", "old") ∷ [], err (file_not_found "data/2024/05/c.json"))
unfolding delete new_storage
delete_missing = refl

get_stored_file :
    get_file monthly "report" "2024/05" (store_file monthly "report" "text" "2024/05" before).0
    ≡ some "text"
unfolding get_file store_file new_storage
get_stored_file = refl

may-IsPart : IsPart "2024/05"
unfolding rstrip lstrip split
may-IsPart = ((refl, λ e. cc), refl, refl)

data-IsBase : IsBase "data"
unfolding rstrip split
data-IsBase = ((refl, λ e. cc), refl)

-- In the working directory the base path is ".", which the partition key loses from the day.
abbrev here : FileStorage
unfolding new_storage
here = new_storage "." (some "%Y.%m")

dot_lost :
    (store {X = String} (λ (s : String). s) here "a" "new" "2024.05" "f00" []
      ≡ ok (("2024.05/a.json", "new") ∷ [], "2024.05/a.json"))
    × (partition_key here "2024.05/a.json" ≡ "202405")
    × (get parse here "a" "202405" (("2024.05/a.json", "new") ∷ []) ≡ ok none)
unfolding store insert new_storage partition_key get
dot_lost = (refl, refl, refl)

store-get_example :
    (saved : Files) × (path : String) × (store {X = String}
        (λ (s : String). s)
        monthly
        "a"
        "new"
        "2024/05"
        "f00"
        before
      ≡ ok (saved, path))
    × (get parse monthly "a" (partition_key monthly path) saved ≡ ok (some "new"))
unfolding new_storage rstrip before_slash
store-get_example =
    store-get (λ (s : String). s) parse monthly "a" "new" "2024/05" "f00" before data-IsBase
      may-IsPart refl (λ e. cc) refl

-- While the first two characters of the text are written.
abbrev part_written : Files
part_written = insert "data/2024/05/.f00" "ne" before

save_file-atomic_example :
    ((get parse monthly "a" "2024/05" part_written ≡ get parse monthly "a" "2024/05" before)
      ⊎ (save_file {X = String} "new" "data/2024/05" "a.json" "f00" before
          ≡ ok (part_written, file_path "data/2024/05" "a.json")))
    × (saved : Files) × (save_file {X = String} "new" "data/2024/05" "a.json" "f00" before
        ≡ ok (saved, file_path "data/2024/05" "a.json"))
    × (get parse monthly "a" "2024/05" saved ≡ (
        if str_eq
          (file_path "data/2024/05" "a.json")
          (file_path (partition_path monthly "2024/05") "a.json")
        then payload_of parse (some "new")
        else get parse monthly "a" "2024/05" before))
unfolding new_storage partition_path save_ops
save_file-atomic_example =
    save_file-atomic parse monthly "a" "2024/05" "new" "data/2024/05" "a.json" "f00" before
      part_written refl (inl (inr ("ne", refl)))
