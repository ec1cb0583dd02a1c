-- ===== src/Decoder/Include/Depth.antt =====
-- The limit on the nesting of INCL: no file is created more than 32 deep in others, so that the stack
-- suffices, and the counter is what it was, however the request ends.
use readflex.Prelude.{
  ℕ, zero, suc, ◌+◌, ◌≤◌, ◌<◌, ◌≡◌, refl, ◌≢◌, inl, inr, Option, none, some, List, [], ◌∷◌, Bytes,
  leb, arith, Bool-cases, Option-cases, ◌∙◌,
}
use readflex.Decoder.Files.{
  FileRef, FormChunk, inclusion, plain, torn, Source, State, returned, thrown, exhausted, Step,
  Create, eat_newlines, eat_last, url_of, notify_error, unlink_file,
}
use readflex.Decoder.Include.{
  enter_file, add_included, request_done, request_named, process_incl_chunk, chunk_loop, triggered,
  registered, create_file, find_alias, get_djvu_file, id_to_file, new_file, with_file, after_incl,
}

-- The step ends within the fuel, with the counter at `d`.
abbrev pub EndsAt {ℓ} : {A : Type ℓ} → ℕ → Step A → Type ℓ
EndsAt d step = (step.0 ≢ exhausted) × (step.1.depth ≡ d)

-- A request for a file that ends whenever it is made with the counter at `d`.
abbrev pub Answers : ℕ → Create → Type 0
Answers d create = (id : Bytes) (s : State) → s.depth ≡ d → EndsAt d (create id s)

module _ (src : Source) (create : Create) (d : ℕ) (answers : d < 32 → Answers (suc d) create) where
  enter_file-EndsAt : (id : Bytes) (s : State) → s.depth ≡ d → EndsAt d (enter_file create id s)
  unfolding enter_file
  enter_file-EndsAt id s e = elim (Bool-cases (leb 32 s.depth)) [
    | inl deep ↦ rw deep (ground arith)
    | inr room ↦
        let (h, k) =
          answers (ground arith) id (record s { depth = suc s.depth }) (omega (arith, e)) in
        rw room (h, omega (arith, k))
  ]

  request_done-EndsAt :
      (file : FileRef) (file_num : ℕ) (id name : Bytes) (step : Step (Option FileRef))
      → EndsAt d step
      → EndsAt d (request_done src file file_num id name step)
  unfolding request_done add_included notify_error unlink_file
  request_done-EndsAt file file_num id name (thrown cause, s) h = ground arith
  request_done-EndsAt file file_num id name (returned none, s) h = ground arith
  request_done-EndsAt file file_num id name (returned (some f), s) h = ground arith
  request_done-EndsAt file file_num id name (exhausted, s) h = ground arith

  request_named-EndsAt :
      (file : FileRef) (file_num : ℕ) (id : Bytes) (s : State)
      → s.depth ≡ d
      → EndsAt d (request_named src create file file_num id s)
  unfolding request_named
  request_named-EndsAt file file_num id s e = ground (
    arith,
    request_done-EndsAt file file_num id (src.fname (url_of src file id)) (enter_file create id s)
        (enter_file-EndsAt id s e),
  )

  process_incl_chunk-EndsAt :
      (file : FileRef) (file_num : ℕ) (text : Bytes) (s : State)
      → s.depth ≡ d
      → EndsAt d (process_incl_chunk src create file file_num text s)
  unfolding process_incl_chunk
  process_incl_chunk-EndsAt file file_num text s e =
      elim (eat_last (eat_newlines text))
        as (λ name. EndsAt d (elim name as (λ n. Step (Option FileRef)) [
          | [] ↦ (returned none, s)
          | c ∷ cs ↦ request_named src create file file_num (c ∷ cs) s
        ])) [ [] ↦ ground arith | c ∷ cs ↦ request_named-EndsAt file file_num (c ∷ cs) s e ]

  after_incl-EndsAt :
      (file : FileRef) (step : Step (Option FileRef)) (rest : State → Step (Unit {0}))
      → EndsAt d step
      → ((s : State) → s.depth ≡ d → EndsAt d (rest s))
      → EndsAt d (after_incl src file step rest)
  unfolding after_incl
  after_incl-EndsAt file (returned _, s) rest h k = k s h.1
  after_incl-EndsAt file (thrown cause, s) rest h k =
      ground (arith, k (notify_error file.number cause s) h.1)
  after_incl-EndsAt file (exhausted, s) rest h k = absurd (h.0 refl)

  loop-EndsAt :
      (file : FileRef) (incl_cnt : ℕ) (chunks : List FormChunk) (s : State)
      → s.depth ≡ d
      → EndsAt d (chunk_loop src create file incl_cnt chunks s)
  unfolding chunk_loop
  loop-EndsAt file incl_cnt [] s e = ground arith
  loop-EndsAt file incl_cnt (plain ∷ chunks) s e = loop-EndsAt file incl_cnt chunks s e
  loop-EndsAt file incl_cnt (torn cause ∷ chunks) s e = ground arith
  loop-EndsAt file incl_cnt (inclusion text ∷ chunks) s e =
      after_incl-EndsAt file (process_incl_chunk src create file incl_cnt text s)
        (chunk_loop src create file (suc incl_cnt) chunks)
        (process_incl_chunk-EndsAt file incl_cnt text s e) (loop-EndsAt file (suc incl_cnt) chunks)

  triggered-EndsAt :
      (file : FileRef) (step : Step (Unit {0})) → EndsAt d step → EndsAt d (triggered file step)
  unfolding triggered
  triggered-EndsAt file (returned _, s) h = ground arith
  triggered-EndsAt file (thrown cause, s) h = ground arith
  triggered-EndsAt file (exhausted, s) h = absurd (h.0 refl)

  registered-EndsAt :
      (file : FileRef) (step : Step (Unit {0})) → EndsAt d step → EndsAt d (registered file step)
  unfolding registered
  registered-EndsAt file (returned _, s) h = ground arith
  registered-EndsAt file (thrown cause, s) h = ground arith
  registered-EndsAt file (exhausted, s) h = absurd (h.0 refl)

  create_file-EndsAt :
      (url : Bytes) (s : State) → s.depth ≡ d → EndsAt d (create_file src create url s)
  unfolding create_file
  create_file-EndsAt url s e = elim (Option-cases (src.chunks url)) [
    | inl h ↦ rw (h, create_file) (ground arith)
    | inr (chunks, h) ↦
        rw (h, create_file)
          (registered-EndsAt (new_file url s) _ (
            triggered-EndsAt (new_file url s) _
              (loop-EndsAt (new_file url s) 0 chunks (with_file s) e)))
  ]

  get_djvu_file-EndsAt :
      (id : Bytes) (s : State) → s.depth ≡ d → EndsAt d (get_djvu_file src create id s)
  unfolding get_djvu_file
  get_djvu_file-EndsAt id s e = elim (Option-cases (src.id_to_url id)) [
    | inl h ↦ rw (h, get_djvu_file) (ground arith)
    | inr (url, h) ↦
        rw (h, get_djvu_file)
          (elim (Option-cases (find_alias url s.aliases)) [
            | inl g ↦ rw g (create_file-EndsAt url s e)
            | inr (f, g) ↦ rw g (ground arith)
          ])
  ]

-- A request for a file ends, and leaves the counter as it was, whatever the files include, cycles as
-- well: 33 levels of files that are created inside one another are enough, of which those that the
-- counter shows are taken already.
pub id_to_file-EndsAt :
    (src : Source) (fuel : ℕ) (id : Bytes) (s : State)
    → s.depth ≤ 32
    → 33 ≤ fuel + s.depth
    → EndsAt s.depth (id_to_file src fuel id s)
unfolding id_to_file
id_to_file-EndsAt src zero id s low enough = absurd (omega arith)
id_to_file-EndsAt src (suc fuel) id s low enough =
    get_djvu_file-EndsAt src (id_to_file src fuel) s.depth
      (λ deep id' s' e.
        let (ends, kept) =
          id_to_file-EndsAt src fuel id' s' (omega (arith, e)) (omega (arith, e)) in
        (ends, kept ∙ e))
      id s refl
