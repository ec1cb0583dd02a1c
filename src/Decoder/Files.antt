-- ===== src/Decoder/Files.antt =====
-- The DjVuFile objects of a document, what is kept of each of them while INCL chunks are processed, and the
-- small steps on it: `process_incl_chunk` up to the lookup of a file, and `unlink_file`, of
-- upstream/libdjvu/DjVuFile.cpp.
use readflex.Prelude.{
  ℕ, Bool, false, ◌||◌, Option, none, some, List, [], ◌∷◌, ◌++◌, Bytes, same, ◌==◌, if◌then◌else◌,
}

-- A DjVuFile object. Two objects may be of one URL.
pub record FileRef : Type 0 where
  pub number : ℕ
  pub url : Bytes

-- What is thrown.
pub data Cause : Type 0 where
  malformed no_create no_data nested_too_deeply : Cause
  unreadable : Bytes → Cause

-- A chunk of a file, with the text of an INCL chunk. At a torn one, `get_chunk` throws.
pub data FormChunk : Type 0 where
  inclusion : Bytes → FormChunk
  plain : FormChunk
  torn : Cause → FormChunk

-- What the classes for URLs, the directory and the data answer. `strict` is
-- `recover_errors <= SKIP_PAGES`.
pub record Source : Type 0 where
  pub id_to_url : Bytes → Option Bytes
  pub beside : Bytes → Bytes → Bytes
  pub fname : Bytes → Bytes
  pub chunks : Bytes → Option (List FormChunk)
  pub strict : Bool

-- `depth` is `incl_depth`, `included` the `inc_files_list` of each object, `aliases` the files that are
-- registered by URL, `unlinked` the names that `unlink_file` has taken out of an object's data.
pub record State : Type 0 where
  pub depth : ℕ
  pub created : ℕ
  pub aliases : List FileRef
  pub included : ℕ → List FileRef
  pub complete : List ℕ
  pub unlinked : List (ℕ × Bytes)
  pub errors : List (ℕ × Cause)

-- `exhausted` is the end of the fuel, which stands for the stack.
pub data Outcome {ℓ} (A : Type ℓ) : Type ℓ where
  returned : A → Outcome A
  thrown : Cause → Outcome A
  exhausted : Outcome A

abbrev pub Step {ℓ} : Type ℓ → Type ℓ
Step A = Outcome A × State

-- `pcaster->id_to_file`.
abbrev pub Create : Type 0
Create = Bytes → State → Step (Option FileRef)

-- The newlines at the beginning and at the end are eaten.
unfoldable pub eat_newlines : Bytes → Bytes
eat_newlines [] = []
eat_newlines (c ∷ cs) = if c == 0x0a then eat_newlines cs else c ∷ cs

unfoldable pub eat_last : Bytes → Bytes
eat_last [] = []
eat_last (c ∷ cs) =
    let rest = eat_last cs in
    elim rest [ [] ↦ if c == 0x0a then [] else c ∷ [] | d ∷ ds ↦ c ∷ d ∷ ds ]

-- `strchr` of '/', '\\' or ':'.
unfoldable pub names_path : Bytes → Bool
names_path [] = false
names_path (c ∷ cs) = c == b'/' || c == b'\\' || c == b':' || names_path cs

unfoldable pub find_named : Source → Bytes → List FileRef → Option FileRef
find_named src name [] = none
find_named src name (f ∷ fs) =
    if same (src.fname f.url) name then some f else find_named src name fs

unfoldable pub url_of : Source → FileRef → Bytes → Bytes
url_of src file name = elim (src.id_to_url name) [
  | none ↦ src.beside name file.url
  | some url ↦ url
]

abbrev pub set_included : ℕ → List FileRef → State → State
set_included n files s = record s { included = λ k. if k == n then files else s.included k }

unfoldable pub notify_error : ℕ → Cause → State → State
notify_error n cause s = record s { errors = s.errors ++ (n, cause) ∷ [] }

unfoldable pub without_url : Bytes → List FileRef → List FileRef
without_url url [] = []
without_url url (f ∷ fs) = if same f.url url then without_url url fs else f ∷ without_url url fs

unfoldable pub unlink_file : Source → FileRef → Bytes → State → State
unfolding without_url url_of
unlink_file src file name s =
    record (set_included file.number (without_url (url_of src file name) (s.included file.number))
      s) { unlinked = (file.number, name) ∷ s.unlinked }
