-- ===== src/Storage/Writing.antt =====
-- plugins/storage/fs/src/hopeit/fs_storage/__init__.py: what other tasks see of the files while an
-- object is written.
use hopeit_engine.Common.{
  false, List, ◌⊎◌, subst, Option, some, String, [], ◌∷◌, Result, ok, if◌then◌else◌, str_eq, eq_iff,
  ◌≡◌, refl, ap, sym, ◌∙◌, arith, Bool-cases, inl, inr,
}
use hopeit_engine.Common.Dict.{Dict, lookup, insert, lookup-insert_at}
use hopeit_engine.Storage.Paths.{◌++◌}
use hopeit_engine.Storage.{
  FileStorage, Files, suffix, partition_path, file_path, save_ops, run_ops, apply_op, FileOp,
  write_text, move_file, move, save_file, get, payload_of, remove,
}
use hopeit_engine.Storage.Saved.{save_file-ok}

lookup-remove_other {ℓ} :
    {V : Type ℓ} (k j : String) (d : Dict V)
    → str_eq k j ≡ false
    → lookup j (remove k d) ≡ lookup j d
unfolding lookup remove
lookup-remove_other k j [] n = refl
lookup-remove_other k j ((i, v) ∷ d) n =
    ground (arith, eq_iff i k, eq_iff i j, eq_iff k j, lookup-remove_other k j d)

insert_elsewhere {ℓ} :
    {V : Type ℓ} (k j : String) (v : V) (d : Dict V)
    → str_eq k j ≡ false
    → lookup j (insert k v d) ≡ lookup j d
insert_elsewhere k j v d n = lookup-insert_at k j v d ∙ rw n refl

-- The texts of the file after the move.
saved_at :
    (source target j text : String) (fs : Files)
    → str_eq source j ≡ false
    → lookup j (insert target text (remove source (insert source text fs)))
      ≡ (if str_eq target j then some text else lookup j fs)
saved_at source target j text fs n =
    lookup-insert_at target j text (remove source (insert source text fs))
    ∙ ap (λ o. if str_eq target j then some text else o)
        (lookup-remove_other source j (insert source text fs) n
          ∙ insert_elsewhere source j text fs n)

-- What other tasks may find while an operation runs: the files as before, or, while a text is written,
-- a part of it in place of the text of the file. A move is done at once.
abbrev pub During : FileOp → Files → Files → Type 0
During (write_text path text) fs seen =
    (seen ≡ fs) ⊎ ((part : String) × (seen ≡ insert path part fs))
During (move_file source target) fs seen = seen ≡ fs

-- What other tasks may find from the start of some operations to their end.
abbrev pub Visible : (X : Type 0) → List FileOp → Files → Files → Type 0
Visible X [] fs seen = seen ≡ fs
Visible X (op ∷ ops) fs seen =
    During op fs seen
    ⊎ ((later : Files) × (apply_op {X = X} op fs ≡ ok later) × Visible X ops later seen)

module _ {P X : Type 0} (from_json : String → Result X P) where
  -- Reading a key, given the text of its file.
  get-at :
      (st : FileStorage) (key partition_key : String) (fs : Files) (o : Option String)
      → lookup (file_path (partition_path st partition_key) (key ++ suffix)) fs ≡ o
      → get from_json st key partition_key fs ≡ payload_of from_json o
  unfolding get
  get-at st key partition_key fs o e = ap (payload_of from_json) e

  -- A text in another file does not change what is read.
  get-elsewhere :
      (st : FileStorage) (key partition_key source part : String) (fs : Files)
      → str_eq source (file_path (partition_path st partition_key) (key ++ suffix)) ≡ false
      → get from_json st key partition_key (insert source part fs)
        ≡ get from_json st key partition_key fs
  get-elsewhere st key partition_key source part fs n =
      let read : String = file_path (partition_path st partition_key) (key ++ suffix) in
      get-at st key partition_key (insert source part fs) (lookup read fs)
        (insert_elsewhere source read part fs n)
      ∙ sym (get-at st key partition_key fs (lookup read fs) refl)

  moved :
      (text path name uuid : String) (fs seen : Files)
      → move {X = X}
          (file_path path ("." ++ uuid))
          (file_path path name)
          (insert (file_path path ("." ++ uuid)) text fs)
        ≡ ok seen
      → save_file {X = X} text path name uuid fs ≡ ok (seen, file_path path name)
  unfolding save_file run_ops save_ops
  moved text path name uuid fs seen m = rw m refl

  seen_at :
      (st : FileStorage) (key partition_key text path name uuid : String) (fs seen : Files)
      → str_eq
          (file_path path ("." ++ uuid))
          (file_path (partition_path st partition_key) (key ++ suffix))
        ≡ false
      → Visible X (save_ops text path name uuid) fs seen
      → (get from_json st key partition_key seen ≡ get from_json st key partition_key fs)
        ⊎ (save_file {X = X} text path name uuid fs ≡ ok (seen, file_path path name))
  unfolding save_ops
  seen_at st key partition_key text path name uuid fs seen n v =
      let source : String = file_path path ("." ++ uuid) in
      let target : String = file_path path name in
      elim v [
        | inl (inl e) ↦ inl (rw e refl)
        | inl (inr (part, e)) ↦ inl (rw e (get-elsewhere st key partition_key source part fs n))
        | inr (later, w, inl e) ↦
            let same : seen ≡ insert source text fs = cc in
            inl (rw same (get-elsewhere st key partition_key source text fs n))
        | inr (later, w, inr (last, m, e)) ↦
            let same : later ≡ insert source text fs = cc in
            let end : last ≡ seen = cc in
            inr (
              moved text path name uuid fs seen (
                subst (λ l. move {X = X} source target (insert source text fs) ≡ ok l) {x = last}
                  {y = seen} end
                  (subst (λ l. move {X = X} source target l ≡ ok last) {x = later}
                    {y = insert source text fs} same m)))
      ]

  -- A file is replaced at once: unless a key is stored in the temporary file itself, then at every time
  -- from the start of `_save_file` to its end, whatever part of the text is written, either the key is
  -- read as before, or the files are already those that the call leaves. In these, the key that the
  -- saved file belongs to is read as the new text, and every other key as before.
  pub save_file-atomic :
      (st : FileStorage) (key partition_key text path name uuid : String) (fs seen : Files)
      → str_eq
          (file_path path ("." ++ uuid))
          (file_path (partition_path st partition_key) (key ++ suffix))
        ≡ false
      → Visible X (save_ops text path name uuid) fs seen
      → ((get from_json st key partition_key seen ≡ get from_json st key partition_key fs)
          ⊎ (save_file {X = X} text path name uuid fs ≡ ok (seen, file_path path name)))
        × (saved : Files) × (save_file {X = X} text path name uuid fs
            ≡ ok (saved, file_path path name))
        × (get from_json st key partition_key saved ≡ (
            if str_eq
              (file_path path name)
              (file_path (partition_path st partition_key) (key ++ suffix))
            then payload_of from_json (some text)
            else get from_json st key partition_key fs))
  save_file-atomic st key partition_key text path name uuid fs seen n v =
      let source : String = file_path path ("." ++ uuid) in
      let target : String = file_path path name in
      let read : String = file_path (partition_path st partition_key) (key ++ suffix) in
      let saved : Files = insert target text (remove source (insert source text fs)) in
      let at = saved_at source target read text fs n in
      (
        seen_at st key partition_key text path name uuid fs seen n v,
        saved,
        save_file-ok text path name uuid fs,
        elim (Bool-cases (str_eq target read)) [
          | inl y ↦ rw y (get-at st key partition_key saved (some text) (at ∙ rw y refl))
          | inr o ↦ rw o (
              get-at st key partition_key saved (lookup read fs) (at ∙ rw o refl)
              ∙ sym (get-at st key partition_key fs (lookup read fs) refl))
        ],
      )
