-- ===== src/Storage.antt =====
-- plugins/storage/fs/src/hopeit/fs_storage/__init__.py: data objects as files. The file system is a
-- dict from the text of a path to the content of the file; directories are made before they are used
-- and are left out. Paths are texts in normal form; a path joined to an absolute one is not modelled.
pub mod Paths
pub mod Saved
pub mod Writing
mod Tests
use hopeit_engine.Common.{
  ℕ, Bool, true, false, Option, none, some, String, List, [], ◌∷◌, Result, ok, err, ◌>>=◌,
  if◌then◌else◌, str_eq,
}
use hopeit_engine.Common.Dict.{Dict, lookup, insert}
use Paths.{◌++◌, rstrip, lstrip, dirname, remove_first}

abbrev pub suffix : String
suffix = ".json"

-- What is raised: by a move or a removal of a file that is not there, and by what reads JSON.
pub data StorageError (X : Type 0) : Type 0 where
  file_not_found : String → StorageError X
  payload_error : X → StorageError X

-- FileStorage. An empty `partition_dateformat` means that files are not partitioned.
pub record FileStorage : Type 0 where
  pub path : String
  pub partition_dateformat : String

-- `FileStorage(path=path, partition_dateformat=dateformat)`
unfoldable pub new_storage : String → Option String → FileStorage
unfolding lstrip rstrip
new_storage path none = record { path = path; partition_dateformat = "" }
new_storage path (some f) = record { path = path; partition_dateformat = lstrip (rstrip f) }

abbrev pub Files : Type 0
Files = Dict String

-- `del d[k]`
unfoldable pub remove {ℓ} : {V : Type ℓ} → String → Dict V → Dict V
remove k [] = []
remove k ((j, v) ∷ d) = let rest = remove k d in if str_eq j k then d else (j, v) ∷ rest

-- `base / s` for a path and a relative path that is not empty, both in normal form.
unfoldable pub under : String → String → String
unfolding ◌++◌
under base s = if str_eq base "." then s else if str_eq base "/" then "/" ++ s else base ++ "/" ++ s

abbrev pub joined : String → String → String
joined base String.[] = base
joined base (String.◌∷◌ c s) = under base (String.◌∷◌ c s)

-- `base / s`, where a slash at the end of `s` has no effect.
unfoldable pub join_path : String → String → String
unfolding rstrip under
join_path base s = joined base (rstrip s)

-- `self.path / partition_key if partition_key else self.path`
unfoldable pub partition_path : FileStorage → String → String
unfolding join_path
partition_path st String.[] = st.path
partition_path st (String.◌∷◌ c s) = join_path st.path (String.◌∷◌ c s)

-- `path / file_name`
abbrev pub file_path : String → String → String
file_path path name = under path name

-- `get_partition_key`, given the formatted day, and the directory of a stored object.
abbrev pub store_path_for : FileStorage → String → String → String
store_path_for st String.[] day = st.path
store_path_for st (String.◌∷◌ c f) day = join_path st.path (day ++ "/")

abbrev pub store_path : FileStorage → String → String
store_path st day = store_path_for st st.partition_dateformat day

-- What `_save_file` does to files: the text is written to a file of another name, which is moved.
pub data FileOp : Type 0 where
  write_text move_file : String → String → FileOp

unfoldable pub save_ops : String → String → String → String → List FileOp
unfolding ◌++◌ under
save_ops text path name uuid =
    let tmp_path = file_path path ("." ++ uuid) in
    write_text tmp_path text ∷ move_file tmp_path (file_path path name) ∷ []

module _ {X : Type 0} where
  -- `shutil.move`, which replaces the target.
  unfoldable pub move : String → String → Files → Result (StorageError X) Files
  unfolding lookup insert remove
  move source target fs = elim (lookup source fs) [
    | none ↦ err (file_not_found source)
    | some text ↦ ok (insert target text (remove source fs))
  ]

  abbrev pub apply_op : FileOp → Files → Result (StorageError X) Files
  apply_op (write_text path text) fs = ok (insert path text fs)
  apply_op (move_file source target) fs = move source target fs

  unfoldable pub run_ops : List FileOp → Files → Result (StorageError X) Files
  unfolding move insert
  run_ops [] fs = ok fs
  run_ops (op ∷ ops) fs = apply_op op fs >>= run_ops ops

  unfoldable pub save_file :
      String → String → String → String → Files → Result (StorageError X) (Files × String)
  unfolding run_ops save_ops
  save_file text path name uuid fs =
      run_ops (save_ops text path name uuid) fs >>= λ saved. ok (saved, file_path path name)

module _ {P X : Type 0} (to_json : P → String) where
  unfoldable pub store :
      FileStorage → String → P → String → String → Files → Result (StorageError X) (Files × String)
  unfolding save_file join_path
  store st key value day uuid fs =
      save_file (to_json value) (store_path st day) (key ++ suffix) uuid fs

module _ {P X : Type 0} (from_json : String → Result X P) where
  abbrev pub payload_of : Option String → Result X (Option P)
  payload_of none = ok none
  payload_of (some String.[]) = ok none
  payload_of (some (String.◌∷◌ c s)) = from_json (String.◌∷◌ c s) >>= λ p. ok (some p)

  unfoldable pub get : FileStorage → String → String → Files → Result X (Option P)
  unfolding partition_path lookup under ◌++◌
  get st key partition_key fs =
      payload_of (lookup (file_path (partition_path st partition_key) (key ++ suffix)) fs)

unfoldable pub get_file : FileStorage → String → String → Files → Option String
unfolding partition_path lookup under ◌++◌
get_file st name partition_key fs = lookup (file_path (partition_path st partition_key) name) fs

-- `store_file`, given the formatted day of the file.
unfoldable pub store_file : FileStorage → String → String → String → Files → Files × String
unfolding insert join_path under ◌++◌
store_file st name content day fs =
    let path = file_path (store_path st day) name in (insert path content fs, path)

module _ {X : Type 0} where
  -- The files are removed one by one, up to the first one that is not there.
  unfoldable pub delete_files :
      FileStorage → String → List String → Files → Files × Result (StorageError X) (Unit {0})
  unfolding partition_path lookup remove under ◌++◌
  delete_files st partition_key [] fs = (fs, ok tt)
  delete_files st partition_key (name ∷ names) fs =
      let path = file_path (partition_path st partition_key) name in
      let rest = delete_files st partition_key names (remove path fs) in
      elim (lookup path fs) [ none ↦ (fs, err (file_not_found path)) | some text ↦ rest ]

abbrev pub with_suffix : List String → List String
with_suffix [] = []
with_suffix (key ∷ keys) = (key ++ suffix) ∷ with_suffix keys

-- `delete`
unfoldable pub delete :
    {X : Type 0}
    → FileStorage
    → String
    → List String
    → Files
    → Files × Result (StorageError X) (Unit {0})
unfolding delete_files ◌++◌
delete st partition_key keys fs = delete_files st partition_key (with_suffix keys) fs

abbrev pub key_for : FileStorage → String → String → String
key_for st String.[] path = ""
key_for st (String.◌∷◌ c f) path = lstrip (remove_first st.path (dirname path))

-- `partition_key(path)`
unfoldable pub partition_key : FileStorage → String → String
unfolding lstrip remove_first dirname
partition_key st path = key_for st st.partition_dateformat path
