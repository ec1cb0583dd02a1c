-- ===== src/Lib.antt =====
-- Verification of the DjVu backend of the reader: the C interface that the Dart packages call through
-- FFI, packages/pagecraft/native/djvu/pagecraft_djvu.cpp, around the vendored decoder DjVuLibre.
--
-- The parts, from the bottom up, with the functions of pagecraft_djvu.cpp that each file models:
--   Failure     the exceptions, one constructor for each text that is thrown, as results
--   Container   big_endian, read_at, validate_container: the check of a file before it is decoded
--   Wait        messages, wait_for: one wait is the clock, the answers of the polls, the messages
--   Page        check_page, page_info, oriented_size
--   Json        json_string, allocated, and std::to_string; Json/Reader is a reader of JSON strings
--   Ctype       the tests of <ctype.h>
--   Exp         the expressions of the decoder and their accessors (upstream/libdjvu/miniexp.h)
--   Exp/Lists   the lists, texts and numbers of upstream/libdjvu/miniexp.cpp
--   Exp/Number  str_is_double, miniexp_double; Exp/Text: print_c_string, char_utf8, append_utf8
--   Exp/Printer printer_t: the plain printer; Exp/Reader: skip_blank to miniexp_read_r
--   Exp/Symbols hashcode, symtable_t, miniexp_symbol: the table of symbols, for one thread
--   Decoder     the S-expressions of upstream/libdjvu/ddjvuapi.cpp: Bookmarks is outline_sub, Zones is
--               pagetext_sub, Annotations is anno_compat to get_bytestream_anno, Keys the helpers for
--               annotations, Documents the exported functions around them
--   Decoder/ByteStream, Layout, Text, Nav: the chunks of a page's text and of the bookmarks
--               (upstream/libdjvu/DjVuText.cpp, DjVmNav.cpp), from whose zones and bookmarks the
--               S-expressions are made
--   Decoder/Files, Include: the INCL chunks of upstream/libdjvu/DjVuFile.cpp, with the limit on their
--               nesting that patches/0001-limit-incl-nesting-depth.patch adds
--   Words       collect_words: the words of a text layer, with rectangles cut and turned
--   TextLayer   expression, and the body of pagecraft_djvu_text
--   Outline     outline_page, outline_items, and the body of pagecraft_djvu_outline
--   Resource    the destructors ~Document, ~Page, ~Expression and the unique_ptrs, as traces of events;
--               an expression is taken by the decoder in the poll that answers, and the guard that
--               releases it comes after the wait
--   Render      pagecraft_djvu_render
--   Open        pagecraft_djvu_open, pagecraft_djvu_close
--   Metadata    the body of pagecraft_djvu_metadata
--   Api         guarded, last_error, and the exported functions around the bodies; Api/Output:
--               document_of, and what pagecraft_djvu_page_info writes through its pointers
-- A file's folder holds the theorems about it, in files named for what they are about, and its tests.
-- Prelude holds the names and the lemmas that all of them share.
--
-- How they interact: pagecraft_djvu_open checks the container, creates the decoder's context and
-- document, and waits for the decoder; a document then answers page_info, which render and text call
-- first. text and outline read an expression, turn it into values, and print these as JSON. Every
-- exported function runs its body under `guarded`, which turns an exception into the text of
-- `last_error`. The expressions that text and outline read are made by Decoder, out of the decoder's
-- zones and bookmarks, which Decoder/Text and Decoder/Nav read from the bytes of their chunks; those of
-- annotations are read by Exp/Reader.
--
-- Parameters. What DjVuLibre, the file system, the allocator and the clock answer is an argument of the
-- definitions: a record (Wait, Pages, Directory, Opener, Renderer, Source), a function or a Boolean. The
-- hypotheses on them are IsSteady in Wait/Loop (the clock does not go back, and a sleep of a millisecond
-- takes one), AnswersInTime in Wait/Answers (the decoder is ready by some poll), and in Decoder/Text/Chunks
-- that BSByteStream unpacks a chunk to bytes, below 256 each.
-- What memory holds before a text is read into it is a function, any one, in Decoder/Nav.
--
-- Bounds and fuel. `wait_for` has the fuel timeout_ms + 1: a round sleeps for a millisecond, so that the
-- deadline is reached within it. The chunk loop counts down from max_nodes, at which the source throws.
-- `to_string` has ten digits, as many as a number of type int has. The recursions on expressions are
-- structural: what the decoder hands over is a finite tree, as it never makes cycles. The reader takes
-- two calls at most for a character, and has the fuel for them; the loop over bookmarks takes one in
-- each round. `anno_sub` has a round for each character of a chunk, and the loop over the zones of a
-- text one for each byte. The creation of a file has 33 levels, one more than the limit on INCL. Offsets
-- in a file are below 2 ^ 34 and the products of sizes below 2 ^ 63, so that they do not wrap; lengths
-- that are passed as int are bounded in Render/Region. The places of zones are integers without a bound,
-- where the source has int: Decoder/Text/Pages bounds them by the size of the chunk.
--
-- Not modelled: the rest of the decoder (of its copy in upstream, only the expressions that the adapter
-- meets, the chunks they are made of, and the inclusion of files are); in DjVuText.cpp what the adapter
-- does not reach (normtext, the searches by rectangle, XML); stopping, flags for compression and locks in
-- DjVuFile.cpp; in miniexp.cpp the macro characters, which the decoder turns off, the collector of garbage,
-- the classes of objects, and the pretty printer; the unique_ptr around the keys of an annotation; the
-- colour masks, the row order and the cache size, which are handed to the decoder as they are; the
-- conversion of the path on Windows; pagecraft_djvu_free, which is std::free. The adapter's parts take the
-- texts of expressions as C strings without a NUL.
pub mod Prelude
pub mod Failure
pub mod Container
pub mod Wait
pub mod Page
pub mod Json
pub mod Ctype
pub mod Exp
pub mod Decoder
pub mod Words
pub mod TextLayer
pub mod Outline
pub mod Resource
pub mod Render
pub mod Open
pub mod Metadata
pub mod Api
