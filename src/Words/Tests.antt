-- ===== src/Words/Tests.antt =====
-- The words of a concrete text layer.
use readflex.Prelude.{ℕ, ◌≡◌, refl, ◌↔◌, arith, [], ◌∷◌, ◌++◌, codes, Bytes, pos}
use readflex.Exp.{Exp, nil, cons, number, symbol, string, symbolp, numberp, car, nth, to_int}
use readflex.Failure.{ok, err, text_structure}
use readflex.Page.Tests.{letter}
use readflex.Words.Bounds.{IsBounded, collect_words-IsBounded}
use readflex.Words.Layer.{words_of, collect_words-words_of}
use readflex.Words.Place.{Pixel, Covers, Inside, turns, place-Covers}
use readflex.Words.Returns.{
  nodes_of, nodes_below, bytes_of, bytes_below, depth_of, depth_below, Takes, collect_words-Takes,
}
use readflex.Words.{
  Word, Found, clamp, cut, rotate, place, visit, enter, add_word, collect_words, collect_children,
}

abbrev zone : Bytes → ℕ → ℕ → ℕ → ℕ → Exp → Exp
zone kind x1 y1 x2 y2 below = cons (symbol kind) (
    cons (number (pos x1))
      (cons (number (pos y1)) (cons (number (pos x2)) (cons (number (pos y2)) below))))

-- A line with two words, the second of which lies outside the page.
abbrev pub line : Exp
line = zone (codes "line") 0 0 1100 850 (
    cons (zone (codes "word") 100 700 160 720 (cons (string (codes "Hello")) nil))
      (cons (zone (codes "word") 2000 700 2060 720 (cons (string (codes "gone")) nil)) nil))

abbrev nothing : Found
nothing = record { words = []; visited = 0; bytes = 0 }

abbrev hello : Word
hello = record { text = codes "Hello"; at = record { x = 130; y = 940; width = 20; height = 60 } }

collected :
    collect_words line letter nothing 0 ≡ ok (record { words = hello ∷ []; visited = 7; bytes = 9 })
unfolding collect_words collect_children enter visit add_word place cut rotate clamp nth car numberp
    symbolp to_int
collected = refl

-- A zone nested too deeply is refused.
test_depth : collect_words line letter nothing 65 ≡ err text_structure
unfolding collect_words enter
test_depth = refl

collect_words-words_of_example : hello ∷ [] ≡ [] ++ words_of line letter
collect_words-words_of_example = collect_words-words_of line letter nothing 0 collected

nothing-IsBounded : IsBounded letter nothing
nothing-IsBounded = record {
  few_nodes = omega arith;
  few_bytes = omega arith;
  counted = omega arith;
  words = tt;
}

collect_words-IsBounded_example :
    IsBounded letter (record { words = hello ∷ []; visited = 7; bytes = 9 })
collect_words-IsBounded_example =
    collect_words-IsBounded line letter nothing 0 nothing-IsBounded collected

abbrev pixel : Pixel
pixel = record { column = 120; row = 140 }

place-Covers_example :
    Covers (place letter (pos 100) (pos 700) (pos 160) (pos 720)) (turns 1 1100 850 pixel)
    ↔ Inside 850 (pos 100) (pos 700) (pos 160) (pos 720) pixel
place-Covers_example =
    place-Covers letter (pos 100) (pos 700) (pos 160) (pos 720) pixel (omega arith) (omega arith)

nodes_of-line : nodes_of line ≡ 7
unfolding nodes_of nodes_below symbolp
nodes_of-line = refl

bytes_of-line : bytes_of line ≡ 9
unfolding bytes_of bytes_below symbolp numberp nth car
bytes_of-line = refl

depth_of-line : depth_of line ≡ 1
unfolding depth_of depth_below symbolp
depth_of-line = refl

collect_words-Takes_example :
    Takes nothing (nodes_of line) (bytes_of line) (collect_words line letter nothing 0)
collect_words-Takes_example =
    collect_words-Takes line letter nothing 0 (omega (arith, nodes_of-line))
      (omega (arith, bytes_of-line)) (omega (arith, depth_of-line))
