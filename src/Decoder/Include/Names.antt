-- ===== src/Decoder/Include/Names.antt =====
-- Creating files keeps the names in the lists of included files apart.
use readflex.Prelude.{
  ℕ, zero, suc, ◌≡◌, refl, inl, inr, ◌||◌, Option, none, some, List, [], ◌∷◌, Bytes, same, leb,
  arith, Bool-cases, Option-cases, ap, same_iff,
}
use readflex.Decoder.Files.{
  FileRef, FormChunk, inclusion, plain, torn, Source, State, returned, thrown, exhausted, Step,
  Create, eat_newlines, eat_last, names_path, find_named, url_of, notify_error,
}
use readflex.Decoder.Include.{
  enter_file, request_done, request_named, process_incl_chunk, after_incl, chunk_loop, triggered,
  registered, new_file, with_file, create_file, find_alias, get_djvu_file, id_to_file, all_complete,
}
use readflex.Decoder.Include.Distinct.{
  HasDistinctNames, unlink_file-HasDistinctNames, set_included-HasDistinctNames, url_of-named,
  add_included-HasDistinctNames,
}

module _ (src : Source) where
  -- A step that keeps the names apart, and gives the file of the name.
  abbrev pub Keeps : Bytes → Step (Option FileRef) → Type 0
  Keeps id step =
      HasDistinctNames src step.1
      × ((f : FileRef) → step.0 ≡ returned (some f) → src.id_to_url id ≡ some f.url)

  enter_file-Keeps :
      (create : Create)
      → ((id : Bytes) (s : State) → HasDistinctNames src s → Keeps id (create id s))
      → (id : Bytes) (s : State) → HasDistinctNames src s
      → Keeps id (enter_file create id s)
  unfolding enter_file
  enter_file-Keeps create keeps id s d = elim (Bool-cases (leb 32 s.depth)) [
    | inl deep ↦ rw (deep, enter_file) (d, λ f e. absurd (ground arith))
    | inr room ↦ rw (room, enter_file) (keeps id (record s { depth = suc s.depth }) d)
  ]

  request_done-HasDistinctNames :
      (file : FileRef) (file_num : ℕ) (id : Bytes) (step : Step (Option FileRef))
      → Keeps id step
      → HasDistinctNames src
          (request_done src file file_num id (src.fname (url_of src file id)) step).1
  unfolding request_done notify_error
  request_done-HasDistinctNames file file_num id (thrown cause, s) (d, gives) =
      unlink_file-HasDistinctNames src file id s d
  request_done-HasDistinctNames file file_num id (returned none, s) (d, gives) = d
  request_done-HasDistinctNames file file_num id (returned (some f), s) (d, gives) =
      add_included-HasDistinctNames src file f file_num (src.fname (url_of src file id)) s
        (ap src.fname (url_of-named src file f id (gives f refl))) d
  request_done-HasDistinctNames file file_num id (exhausted, s) (d, gives) = d

  module _ (create : Create)
      (keeps : (id : Bytes) (s : State) → HasDistinctNames src s → Keeps id (create id s)) where
    request_named-HasDistinctNames :
        (file : FileRef) (file_num : ℕ) (id : Bytes) (s : State)
        → HasDistinctNames src s
        → HasDistinctNames src (request_named src create file file_num id s).1
    unfolding request_named
    request_named-HasDistinctNames file file_num id s d =
        elim (Bool-cases (names_path id || same (url_of src file id) file.url)) [
          | inl e ↦ rw (e, request_named) d
          | inr e ↦
              elim (Option-cases
                (find_named src (src.fname (url_of src file id)) (s.included file.number))) [
                  | inl new ↦
                      rw (e, new, request_named)
                        (request_done-HasDistinctNames file file_num id (enter_file create id s)
                          (enter_file-Keeps create keeps id s d))
                  | inr (g, old) ↦ rw (e, old, request_named) d
                ]
        ]

    process_incl_chunk-HasDistinctNames :
        (file : FileRef) (file_num : ℕ) (text : Bytes) (s : State)
        → HasDistinctNames src s
        → HasDistinctNames src (process_incl_chunk src create file file_num text s).1
    unfolding process_incl_chunk
    process_incl_chunk-HasDistinctNames file file_num text s d =
        elim (eat_last (eat_newlines text))
          as (λ name.
            HasDistinctNames src
              (elim name as (λ n. Step (Option FileRef)) [
                | [] ↦ (returned none, s)
                | c ∷ cs ↦ request_named src create file file_num (c ∷ cs) s
              ]).1) [ [] ↦ d | c ∷ cs ↦ request_named-HasDistinctNames file file_num (c ∷ cs) s d ]

    after_incl-HasDistinctNames :
        (file : FileRef) (step : Step (Option FileRef)) (rest : State → Step (Unit {0}))
        → HasDistinctNames src step.1
        → ((s : State) → HasDistinctNames src s → HasDistinctNames src (rest s).1)
        → HasDistinctNames src (after_incl src file step rest).1
    unfolding after_incl notify_error find_named
    after_incl-HasDistinctNames file (returned _, s) rest d k = k s d
    after_incl-HasDistinctNames file (thrown cause, s) rest d k = elim (Bool-cases src.strict) [
      | inl e ↦ rw (e, after_incl) d
      | inr e ↦ rw (e, after_incl) (k (notify_error file.number cause s) d)
    ]
    after_incl-HasDistinctNames file (exhausted, s) rest d k = d

    loop-HasDistinctNames :
        (file : FileRef) (incl_cnt : ℕ) (chunks : List FormChunk) (s : State)
        → HasDistinctNames src s
        → HasDistinctNames src (chunk_loop src create file incl_cnt chunks s).1
    unfolding chunk_loop notify_error find_named
    loop-HasDistinctNames file incl_cnt [] s d = d
    loop-HasDistinctNames file incl_cnt (plain ∷ chunks) s d =
        loop-HasDistinctNames file incl_cnt chunks s d
    loop-HasDistinctNames file incl_cnt (torn cause ∷ chunks) s d = elim (Bool-cases src.strict) [
      | inl e ↦ rw (e, chunk_loop) d
      | inr e ↦ rw (e, chunk_loop) d
    ]
    loop-HasDistinctNames file incl_cnt (inclusion text ∷ chunks) s d =
        after_incl-HasDistinctNames file (process_incl_chunk src create file incl_cnt text s)
          (chunk_loop src create file (suc incl_cnt) chunks)
          (process_incl_chunk-HasDistinctNames file incl_cnt text s d)
          (loop-HasDistinctNames file (suc incl_cnt) chunks)

    triggered-HasDistinctNames :
        (file : FileRef) (step : Step (Unit {0}))
        → HasDistinctNames src step.1
        → HasDistinctNames src (triggered file step).1
    unfolding triggered notify_error
    triggered-HasDistinctNames file (returned _, s) d =
        elim (Bool-cases (all_complete (s.included file.number) s.complete)) [
          | inl e ↦ rw (e, triggered) d
          | inr e ↦ rw (e, triggered) d
        ]
    triggered-HasDistinctNames file (thrown cause, s) d = d
    triggered-HasDistinctNames file (exhausted, s) d = d

    registered-Keeps :
        (file : FileRef) (id : Bytes) (step : Step (Unit {0}))
        → src.id_to_url id ≡ some file.url
        → HasDistinctNames src step.1
        → Keeps id (registered file step)
    unfolding registered
    registered-Keeps file id (returned _, s) h d = (d, λ f e. ground arith)
    registered-Keeps file id (thrown cause, s) h d = (d, λ f e. absurd (ground arith))
    registered-Keeps file id (exhausted, s) h d = (d, λ f e. absurd (ground arith))

    create_file-Keeps :
        (id url : Bytes) (s : State)
        → src.id_to_url id ≡ some url
        → HasDistinctNames src s
        → Keeps id (create_file src create url s)
    unfolding create_file
    create_file-Keeps id url s h d =
        let d' : HasDistinctNames src (with_file s) =
          set_included-HasDistinctNames src s.created [] s d tt in
        elim (Option-cases (src.chunks url)) [
          | inl e ↦ rw (e, create_file) (d', λ f e'. absurd (ground arith))
          | inr (chunks, e) ↦
              rw (e, create_file)
                (registered-Keeps (new_file url s) id _ h (
                  triggered-HasDistinctNames (new_file url s) _
                    (loop-HasDistinctNames (new_file url s) 0 chunks (with_file s) d')))
        ]

    find_alias-url :
        (url : Bytes) (fs : List FileRef) (g : FileRef) → find_alias url fs ≡ some g → g.url ≡ url
    unfolding find_alias
    find_alias-url url [] g h = absurd (ground arith)
    find_alias-url url (f ∷ fs) g h = ground (arith, find_alias-url url fs g, same_iff f.url url)

    get_djvu_file-Keeps :
        (id : Bytes) (s : State) → HasDistinctNames src s → Keeps id (get_djvu_file src create id s)
    unfolding get_djvu_file
    get_djvu_file-Keeps id s d = elim (Option-cases (src.id_to_url id)) [
      | inl e ↦ rw (e, get_djvu_file) (d, λ f e'. absurd (ground arith))
      | inr (url, e) ↦ elim (Option-cases (find_alias url s.aliases)) [
        | inl new ↦ rw (e, new, get_djvu_file) (rw e at (create_file-Keeps id url s e d))
        | inr (g, old) ↦
            rw (e, old, get_djvu_file)
              (d, λ f e'. ground (arith, find_alias-url url s.aliases g old))
      ]
    ]

  id_to_file-Keeps :
      (fuel : ℕ) (id : Bytes) (s : State)
      → HasDistinctNames src s
      → Keeps id (id_to_file src fuel id s)
  unfolding id_to_file
  id_to_file-Keeps zero id s d = (d, λ f e. absurd (ground arith))
  id_to_file-Keeps (suc fuel) id s d =
      get_djvu_file-Keeps (id_to_file src fuel) (id_to_file-Keeps fuel) id s d

  -- However a request for a file ends, no object includes two files of the same name if none did
  -- before.
  pub id_to_file-HasDistinctNames :
      (fuel : ℕ) (id : Bytes) (s : State)
      → HasDistinctNames src s
      → HasDistinctNames src (id_to_file src fuel id s).1
  id_to_file-HasDistinctNames fuel id s d = (id_to_file-Keeps fuel id s d).0
