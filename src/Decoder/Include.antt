-- ===== src/Decoder/Include.antt =====
-- `DjVuFile::process_incl_chunk`, `process_incl_chunks` and `trigger_cb` of upstream/libdjvu/DjVuFile.cpp,
-- with the limit on the nesting depth of INCL that patches/0001-limit-incl-nesting-depth.patch adds, and
-- the part of `DjVuDocument::get_djvu_file` and `url_to_file` in which an included file is created:
-- creating it processes its own INCL chunks, before it is registered by name. The document is one whose
-- directory and data are at hand, and no file is stopped. A URL is the bytes of its normal form.
pub mod Depth
pub mod Distinct
pub mod Names
mod Tests
use readflex.Decoder.Files.{
  FileRef, Cause, malformed, no_create, no_data, nested_too_deeply, unreadable, FormChunk,
  inclusion, plain, torn, Source, State, Outcome, returned, thrown, exhausted, Step, Create,
  eat_newlines, eat_last, names_path, find_named, url_of, set_included, notify_error, without_url,
  unlink_file,
}
use readflex.Prelude.{
  ℕ, zero, suc, ◌-◌, Bool, true, false, ◌&&◌, ◌||◌, Option, none, some, List, [], ◌∷◌, ◌++◌, Bytes,
  same, leb, ◌==◌, if◌then◌else◌,
}

-- The end of the inner `G_TRY`, on both of its ways out.
abbrev pub leave : Step (Option FileRef) → Step (Option FileRef)
leave (outcome, s) = (outcome, record s { depth = s.depth - 1 })

unfoldable pub enter_file : Create → Bytes → State → Step (Option FileRef)
enter_file create name s =
    if leb 32 s.depth
    then (thrown nested_too_deeply, s)
    else leave (create name (record s { depth = suc s.depth }))

-- `insert_before` at the position, or `append` if the list is not that long.
unfoldable pub insert_at : ℕ → FileRef → List FileRef → List FileRef
insert_at n f [] = f ∷ []
insert_at zero f (g ∷ gs) = f ∷ g ∷ gs
insert_at (suc n) f (g ∷ gs) = g ∷ insert_at n f gs

-- The list is searched again, as another may have added the file.
unfoldable pub add_included : Source → FileRef → ℕ → Bytes → FileRef → State → Step (Option FileRef)
unfolding find_named insert_at
add_included src file file_num name found s = elim (find_named src name (s.included file.number)) [
  | some f ↦ (returned (some f), s)
  | none ↦ (
    returned (some found),
    set_included file.number (insert_at file_num found (s.included file.number)) s,
  )
]

-- What follows the request for a new file: the outer `G_CATCH`, and then the registration.
unfoldable pub request_done :
    Source → FileRef → ℕ → Bytes → Bytes → Step (Option FileRef) → Step (Option FileRef)
unfolding notify_error unlink_file add_included
request_done src file file_num id name (thrown cause, s) =
    (returned none, notify_error file.number cause (unlink_file src file id s))
request_done src file file_num id name (returned none, s) = (thrown no_create, s)
request_done src file file_num id name (returned (some f), s) =
    add_included src file file_num name f s
request_done src file file_num id name (exhausted, s) = (exhausted, s)

unfoldable pub request_named : Source → Create → FileRef → ℕ → Bytes → State → Step (Option FileRef)
unfolding url_of names_path find_named enter_file request_done
request_named src create file file_num id s =
    let url = url_of src file id in
    if names_path id || same url file.url
    then (thrown malformed, s)
    else elim (find_named src (src.fname url) (s.included file.number)) [
      | some f ↦ (returned (some f), s)
      | none ↦ request_done src file file_num id (src.fname url) (enter_file create id s)
    ]

unfoldable pub process_incl_chunk :
    Source → Create → FileRef → ℕ → Bytes → State → Step (Option FileRef)
unfolding eat_newlines eat_last request_named
process_incl_chunk src create file file_num text s = elim (eat_last (eat_newlines text)) [
  | [] ↦ (returned none, s)
  | c ∷ cs ↦ request_named src create file file_num (c ∷ cs) s
]

-- The `G_CATCH` around an INCL chunk, and the rest of the loop. A cause that `report_error` throws goes
-- on through the outer `G_CATCH`, whose `report_error` throws it again; else it is reported.
unfoldable pub after_incl :
    Source → FileRef → Step (Option FileRef) → (State → Step (Unit {0})) → Step (Unit {0})
unfolding notify_error
after_incl src file (returned _, s) rest = rest s
after_incl src file (thrown cause, s) rest =
    if src.strict then (thrown cause, s) else rest (notify_error file.number cause s)
after_incl src file (exhausted, s) rest = (exhausted, s)

unfoldable pub chunk_loop : Source → Create → FileRef → ℕ → List FormChunk → State → Step (Unit {0})
unfolding notify_error
chunk_loop src create file incl_cnt [] s = (returned tt, s)
chunk_loop src create file incl_cnt (plain ∷ chunks) s =
    chunk_loop src create file incl_cnt chunks s
chunk_loop src create file incl_cnt (torn cause ∷ chunks) s =
    if src.strict then (thrown cause, s) else (returned tt, notify_error file.number cause s)
chunk_loop src create file incl_cnt (inclusion text ∷ chunks) s =
    after_incl src file (process_incl_chunk src create file incl_cnt text s)
      (chunk_loop src create file (suc incl_cnt) chunks)

unfoldable has_number : ℕ → List ℕ → Bool
has_number n [] = false
has_number n (m ∷ ms) = n == m || has_number n ms

unfoldable all_complete : List FileRef → List ℕ → Bool
unfolding has_number
all_complete [] complete = true
all_complete (f ∷ fs) complete = has_number f.number complete && all_complete fs complete

-- `trigger_cb` behind the chunks, and the `G_CATCH` of `static_trigger_cb`.
unfoldable pub triggered : FileRef → Step (Unit {0}) → Step (Unit {0})
unfolding all_complete notify_error
triggered file (returned _, s) = (
  returned tt,
  if all_complete (s.included file.number) s.complete
      then record s { complete = file.number ∷ s.complete }
      else s,
)
triggered file (thrown cause, s) = (returned tt, notify_error file.number cause s)
triggered file (exhausted, s) = (exhausted, s)

-- `set_file_aliases`, once the file is created.
unfoldable pub registered : FileRef → Step (Unit {0}) → Step (Option FileRef)
registered file (exhausted, s) = (exhausted, s)
registered file (thrown cause, s) = (thrown cause, s)
registered file (returned _, s) = (returned (some file), record s { aliases = file ∷ s.aliases })

unfoldable pub find_alias : Bytes → List FileRef → Option FileRef
find_alias url [] = none
find_alias url (f ∷ fs) = if same f.url url then some f else find_alias url fs

-- The object that `DjVuFile::create` makes next, and the state that has it.
abbrev pub new_file : Bytes → State → FileRef
new_file url s = record { number = s.created; url = url }

abbrev pub with_file : State → State
with_file s = record (set_included s.created [] s) { created = suc s.created }

-- `DjVuFile::create` with `init`, which adds the trigger, and the trigger.
unfoldable pub create_file : Source → Create → Bytes → State → Step (Option FileRef)
unfolding chunk_loop triggered registered
create_file src create url s = elim (src.chunks url) [
  | none ↦ (thrown no_data, with_file s)
  | some chunks ↦
      registered (new_file url s)
        (triggered (new_file url s) (chunk_loop src create (new_file url s) 0 chunks (with_file s)))
]

unfoldable pub get_djvu_file : Source → Create → Bytes → State → Step (Option FileRef)
unfolding create_file find_alias
get_djvu_file src create id s = elim (src.id_to_url id) [
  | none ↦ (returned none, s)
  | some url ↦ elim (find_alias url s.aliases) [
    | some f ↦ (returned (some f), s)
    | none ↦ create_file src create url s
  ]
]

-- One round of fuel for each file that is created while another is.
unfoldable pub id_to_file : Source → ℕ → Create
unfolding get_djvu_file
id_to_file src zero id s = (exhausted, s)
id_to_file src (suc fuel) id s = get_djvu_file src (id_to_file src fuel) id s
