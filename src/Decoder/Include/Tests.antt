-- ===== src/Decoder/Include/Tests.antt =====
-- A file that includes itself by way of another.
use readflex.Decoder.Files.{inclusion, plain, Source, State, nested_too_deeply}
use readflex.Decoder.Include.{after_incl, process_incl_chunk, id_to_file}
use readflex.Decoder.Include.Depth.{EndsAt, id_to_file-EndsAt}
use readflex.Decoder.Include.Distinct.{HasDistinctNames}
use readflex.Decoder.Include.Names.{id_to_file-HasDistinctNames}
use readflex.Prelude.{◌≡◌, refl, some, [], ◌∷◌, Bytes, same, if◌then◌else◌, false, arith}

abbrev file_a : Bytes
file_a = b'a' ∷ []

abbrev file_b : Bytes
file_b = b'b' ∷ []

abbrev cycle : Source
cycle = record {
  id_to_url = λ id. some id;
  beside = λ id base. id;
  fname = λ url. url;
  chunks =
      λ url. some (plain ∷ inclusion (0x0a ∷ (if same url file_a then file_b else file_a)) ∷ []);
  strict = false;
}

abbrev start : State
start = record {
  depth = 0;
  created = 0;
  aliases = [];
  included = λ n. [];
  complete = [];
  unlinked = [];
  errors = [];
}

id_to_file-EndsAt_example : EndsAt 0 (id_to_file cycle 33 file_a start)
id_to_file-EndsAt_example = id_to_file-EndsAt cycle 33 file_a start (omega arith) (omega arith)

id_to_file-HasDistinctNames_example : HasDistinctNames cycle (id_to_file cycle 33 file_a start).1
id_to_file-HasDistinctNames_example = id_to_file-HasDistinctNames cycle 33 file_a start (λ n. tt)

-- The innermost file, the 33rd object, reports the nesting, and no other object does.
cycle_errors : (id_to_file cycle 33 file_a start).1.errors ≡ (32, nested_too_deeply) ∷ []
unfolding id_to_file after_incl process_incl_chunk same
cycle_errors = refl

cycle_created : (id_to_file cycle 33 file_a start).1.created ≡ 33
unfolding id_to_file after_incl process_incl_chunk same
cycle_created = refl
