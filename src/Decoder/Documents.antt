-- ===== src/Decoder/Documents.antt =====
-- `ddjvu_document_get_outline`, `..._get_pagetext`, `..._get_pageanno`, `..._get_anno`, `get_file_anno` and
-- `get_bytestream_anno` of ddjvuapi.cpp. What the classes of the decoder answer is a parameter; that the
-- result is protected is left to `miniexp_protect`; when it is, in a read by the adapter, is
-- in TextLayer and Metadata.
use readflex.Decoder.Annotations.{get_annotations}
use readflex.Decoder.Bookmarks.{BookMark, get_outline}
use readflex.Decoder.Zones.{Zone, get_pagetext}
use readflex.Decoder.{miniexp_status}
use readflex.Exp.Number.{Double}
use readflex.Exp.{Exp, nil, dummy}
use readflex.Page.{Status, job_failed, job_stopped, is_ok}
use readflex.Prelude.{
  Bool, true, false, not, ◌&&◌, Option, none, some, List, [], ◌∷◌, Bytes, if◌then◌else◌,
}

-- An exception, or no `DjVuDocument`, or what the document answers.
pub data Answer (A : Type 0) : Type 0 where
  failed : Answer A
  answer : A → Answer A

-- The status first, then the answer.
unfoldable on_document : {A : Type 0} → Status → Answer A → (A → Exp) → Exp
unfolding miniexp_status
on_document status a read =
    if is_ok status
    then (elim a [ failed ↦ miniexp_status job_failed | answer x ↦ read x ])
    else miniexp_status status

-- The bookmarks, if there are any.
abbrev outline_of : Option (List BookMark) → Exp
outline_of none = nil
outline_of (some nav) = get_outline nav

unfoldable pub document_get_outline : Status → Answer (Option (List BookMark)) → Exp
unfolding on_document get_outline
document_get_outline status nav = on_document status nav outline_of

-- A page's file: its data is not there; it has no text; or it has the text and its zones.
pub data PageText : Type 0 where
  missing : PageText
  textless : PageText
  page_text : Bytes → Zone → PageText

abbrev text_of_page : Option Bytes → PageText → Exp
text_of_page maxdetail missing = dummy
text_of_page maxdetail textless = nil
text_of_page maxdetail (page_text text page) = get_pagetext text page maxdetail

unfoldable pub document_get_pagetext : Status → Answer PageText → Option Bytes → Exp
unfolding on_document get_pagetext
document_get_pagetext status page maxdetail = on_document status page (text_of_page maxdetail)

-- `DjVuFile`: which data is there, once the included files have been asked for, whether it was
-- stopped, and the chunks of its merged annotations.
pub record File : Type 0 where
  pub all_data : Bool
  pub data_present : Bool
  pub includes_created : Bool
  pub stopped : Bool
  pub chunks : List Bytes

unfoldable get_file_anno : (Bytes → Option Double) → Option File → Exp
unfolding miniexp_status get_annotations
get_file_anno strtod none = dummy
get_file_anno strtod (some file) =
    if file.all_data
    then get_annotations strtod file.chunks
    else if file.data_present && not file.includes_created
    then (if file.stopped then miniexp_status job_stopped else miniexp_status job_failed)
    else dummy

unfoldable document_get_pageanno : (Bytes → Option Double) → Status → Answer (Option File) → Exp
unfolding on_document get_file_anno
document_get_pageanno strtod status file = on_document status file (get_file_anno strtod)

-- The loop over the files of the directory: the one with shared annotations, unless there are two.
abbrev shared : Option (Option File) → List (Bool × Option File) → Option (Option File)
shared fdesc [] = fdesc
shared fdesc ((false, f) ∷ files) = shared fdesc files
shared none ((true, f) ∷ files) = shared (some f) files
shared (some _) ((true, f) ∷ files) = none

-- What is known of a document: whether it is bundled or indirect, and its files.
pub record Files : Type 0 where
  pub has_directory : Bool
  pub files : List (Bool × Option File)

abbrev shared_anno : (Bytes → Option Double) → Option (Option File) → Exp
shared_anno strtod none = nil
shared_anno strtod (some file) = get_file_anno strtod file

unfoldable document_get_anno : (Bytes → Option Double) → Bool → Status → Answer Files → Exp
unfolding on_document get_file_anno
document_get_anno strtod compat status document =
    on_document status document
      λ d. if compat && d.has_directory then shared_anno strtod (shared none d.files) else nil
