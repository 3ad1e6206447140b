-- ===== src/Storage/Saved.antt =====
-- plugins/storage/fs/src/hopeit/fs_storage/__init__.py: that a stored object is found again, under the
-- partition key of the path that `store` gives.
use hopeit_engine.Common.{
  Bool, true, ◌&&◌, not, List, [], ◌∷◌, split, str_eq, if◌then◌else◌, Bool-cases, inl, inr, subst,
  none, some, String, Result, ok, eq_iff, ◌≡◌, ◌≢◌, refl, ap, ◌∙◌,
}
use hopeit_engine.Common.Dict.{Dict, lookup, insert, lookup-insert_at}
use hopeit_engine.Storage.Paths.{
  ◌++◌, rstrip, strip_prefix, lstrip, dirname, before_slash, IsClean, append-IsClean,
  dirname-append, remove_first-append, before_slash-none, rstrip-slash,
}
use hopeit_engine.Storage.{
  FileStorage, Files, suffix, under, run_ops, save_ops, joined, join_path, partition_path,
  file_path, store_path, store_path_for, move, save_file, store, get, payload_of, partition_key,
  key_for, remove,
}

pub lookup-insert_self {ℓ} :
    {V : Type ℓ} (k : String) (v : V) (d : Dict V) → lookup k (insert k v d) ≡ some v
lookup-insert_self k v d = lookup-insert_at k k v d ∙ rw ((eq_iff k k).1 refl) refl

-- Names between slashes: none is empty or a dot.
abbrev pub are_names : List String → Bool
are_names [] = true
are_names (p ∷ parts) = (not (str_eq p "") && not (str_eq p ".")) && are_names parts

-- The parts of an absolute path begin with an empty one.
abbrev pub are_base_parts : List String → Bool
are_base_parts [] = true
are_base_parts (p ∷ parts) = if str_eq p "" then are_names parts else are_names (p ∷ parts)

-- A path in the normal form of pathlib that is neither the working directory nor the root.
abbrev pub IsBase : String → Type 0
IsBase path = IsClean path × (are_base_parts (split b'/' path) ≡ true)

-- A day that is formatted, as a relative path in normal form.
abbrev pub IsPart : String → Type 0
IsPart day = IsClean day × (lstrip day ≡ day) × (are_names (split b'/' day) ≡ true)

under-named : (base s : String) → base ≢ "." → base ≢ "/" → under base s ≡ base ++ "/" ++ s
unfolding under
under-named base s dot root = elim (Bool-cases (str_eq base ".")) [
  | inl y ↦ absurd (dot ((eq_iff base ".").0 y))
  | inr n ↦ elim (Bool-cases (str_eq base "/")) [
    | inl y ↦ absurd (root ((eq_iff base "/").0 y))
    | inr m ↦ rw (n, m) refl
  ]
]

dot_no_base : are_base_parts (split b'/' ".") ≡ true → ⊥
unfolding split
dot_no_base h = cc

IsBase-dot : (path : String) → IsBase path → path ≢ "."
IsBase-dot path (c, h) e =
    dot_no_base (subst (λ (p : String). are_base_parts (split b'/' p) ≡ true) e h)

root_not_clean : rstrip "/" ≡ "/" → ⊥
unfolding rstrip
root_not_clean h = cc

IsBase-root : (path : String) → IsBase path → path ≢ "/"
IsBase-root path ((r, n), h) e = root_not_clean (subst (λ (p : String). rstrip p ≡ p) e r)

behind_slash : (a s : String) → a ++ "/" ++ s ≢ ""
unfolding ◌++◌
behind_slash String.[] s e = cc
behind_slash (String.◌∷◌ c a) s e = cc

apart : {s : String} → some s ≡ none → ⊥
apart e = cc

append-dot : (a s : String) → a ++ "/" ++ s ≢ "."
unfolding ◌++◌ strip_prefix
append-dot String.[] s e = apart (ap (strip_prefix "/") e)
append-dot (String.◌∷◌ c a) s e = behind_slash a s (cc)

append-root : (a s : String) → s ≢ "" → a ++ "/" ++ s ≢ "/"
unfolding ◌++◌
append-root String.[] s n e = n (cc)
append-root (String.◌∷◌ c a) s n e = behind_slash a s (cc)

under-base : (path s : String) → IsBase path → under path s ≡ path ++ "/" ++ s
under-base path s b = under-named path s (IsBase-dot path b) (IsBase-root path b)

joined-clean : (base s : String) → IsBase base → s ≢ "" → joined base s ≡ base ++ "/" ++ s
joined-clean base String.[] b n = absurd (n refl)
joined-clean base (String.◌∷◌ c s) b n = under-base base (String.◌∷◌ c s) b

store_path-partitioned :
    (base day : String)
    → IsBase base
    → IsPart day
    → join_path base (day ++ "/") ≡ base ++ "/" ++ day
unfolding join_path
store_path-partitioned base day b ((r, n), l, k) =
    ap (joined base) (rstrip-slash day ∙ r) ∙ joined-clean base day b n

partition_path-clean :
    (st : FileStorage) (day : String)
    → IsBase st.path
    → IsPart day
    → partition_path st day ≡ st.path ++ "/" ++ day
unfolding partition_path join_path
partition_path-clean st String.[] b ((r, n), l, k) = absurd (n refl)
partition_path-clean st (String.◌∷◌ c s) b ((r, n), l, k) =
    ap (joined st.path) r ∙ joined-clean st.path (String.◌∷◌ c s) b n

lstrip-slash : (s : String) → lstrip ("/" ++ s) ≡ lstrip s
unfolding lstrip ◌++◌
lstrip-slash s = refl

-- The partition of a path that an object was stored at is where it is looked for.
partition-back :
    (st : FileStorage) (format day name : String)
    → IsBase st.path
    → IsPart day
    → before_slash name ≡ none
    → partition_path st (key_for st format (file_path (store_path_for st format day) name))
      ≡ store_path_for st format day
unfolding partition_path
partition-back st String.[] day name c d n = refl
partition-back st (String.◌∷◌ f fs) day name c d n =
    let base : String = st.path ++ "/" ++ day in
    let path : join_path st.path (day ++ "/") ≡ base = store_path-partitioned st.path day c d in
    let file : file_path base name ≡ base ++ "/" ++ name =
      under-named base name (append-dot st.path day) (append-root st.path day d.0.1) in
    let dir : dirname (base ++ "/" ++ name) ≡ base =
      dirname-append base name (append-IsClean st.path ("/" ++ day) (append-IsClean "/" day d.0))
        n in
    rw (path, file, dir, remove_first-append st.path ("/" ++ day), lstrip-slash day, d.1)
      (partition_path-clean st day c d)

payload_of-text :
    {P X : Type 0} (from_json : String → Result X P) (text : String) (p : P)
    → text ≢ ""
    → from_json text ≡ ok p
    → payload_of from_json (some text) ≡ ok (some p)
payload_of-text from_json String.[] p n h = absurd (n refl)
payload_of-text from_json (String.◌∷◌ c s) p n h = rw h refl

pub move-some :
    {X : Type 0} (source target text : String) (fs : Files)
    → lookup source fs ≡ some text
    → move {X = X} source target fs ≡ ok (insert target text (remove source fs))
unfolding move
move-some source target text fs h = rw (move, h) refl

-- What is saved, the text being written and moved.
pub save_file-ok :
    {X : Type 0} (text path name uuid : String) (fs : Files)
    → save_file {X = X} text path name uuid fs
      ≡ ok (
        insert
            (file_path path name)
            text
            (remove (file_path path ("." ++ uuid)) (insert (file_path path ("." ++ uuid)) text fs)),
        file_path path name,
      )
unfolding save_file run_ops save_ops
save_file-ok text path name uuid fs =
    rw
      (move-some (file_path path ("." ++ uuid)) (file_path path name) text
        (insert (file_path path ("." ++ uuid)) text fs)
        (lookup-insert_self (file_path path ("." ++ uuid)) text fs))
      refl

module _ {P X : Type 0} (to_json : P → String) (from_json : String → Result X P) where
  -- If the path of the storage and the formatted day are in normal form, and the path is not the
  -- working directory or the root, then an object that is stored under a key without a slash, as a
  -- text that is not empty and is read back as it, is found again, with its key and the partition key
  -- of the path that `store` gives.
  pub store-get :
      (st : FileStorage) (key : String) (value : P) (day uuid : String) (fs : Files)
      → IsBase st.path
      → IsPart day
      → before_slash key ≡ none
      → to_json value ≢ ""
      → from_json (to_json value) ≡ ok value
      → (saved : Files) × (path : String) × (store {X = X} to_json st key value day uuid fs
          ≡ ok (saved, path))
        × (get from_json st key (partition_key st path) saved ≡ ok (some value))
  unfolding store get partition_key
  store-get st key value day uuid fs c d n e j =
      let name : String = key ++ suffix in
      let path : String = store_path st day in
      let source : String = file_path path ("." ++ uuid) in
      let target : String = file_path path name in
      let fs1 : Files = insert source (to_json value) fs in
      let saved : Files = insert target (to_json value) (remove source fs1) in
      (
        saved,
        target,
        save_file-ok (to_json value) path name uuid fs,
        rw
            (
              partition-back st st.partition_dateformat day name c d
                  (before_slash-none key suffix n refl),
              lookup-insert_self target (to_json value) (remove source fs1),
            )
            (payload_of-text from_json (to_json value) value e j),
      )
