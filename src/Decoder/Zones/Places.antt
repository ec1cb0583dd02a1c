-- ===== src/Decoder/Zones/Places.antt =====
-- The zones of a page's text as the adapter's words.
use readflex.Decoder.Zones.{
  GRect, Zone, zone, Children, no_more, more, zone_name, gather, zone_text, zone_head, name_zone,
  pagetext_sub, pagetext_loop,
}
use readflex.Exp.Lists.{
  miniexp_reverse, miniexp_substring, to_lstr, reverse_onto, list_before, reverse-reverse_onto,
  miniexp_number-fits,
}
use readflex.Exp.Number.{fits_number}
use readflex.Exp.{Exp, nil, cons, string, numberp, to_int, nth, symbolp}
use readflex.Page.{PageInfo}
use readflex.Prelude.{
  ℕ, zero, ◌≡◌, refl, ap, ◌∙◌, Bool, true, false, Option, none, some, List, [], ◌∷◌, ◌++◌,
  append-nil, Bytes, if◌then◌else◌,
}
use readflex.Words.Layer.{word_at, words_of, words_below}
use readflex.Words.{Word, keep_word, place}

-- The rectangle's numbers are numbers of the decoder.
pub record IsSmall (rect : GRect) : Type 0 where
  pub xmin_fits : fits_number rect.xmin ≡ true
  pub ymin_fits : fits_number rect.ymin ≡ true
  pub xmax_fits : fits_number rect.xmax ≡ true
  pub ymax_fits : fits_number rect.ymax ≡ true

abbrev mutual
  pub HasSmall : Zone → Type 0
  HasSmall (zone ztype rect start length zones) = IsSmall rect × AllSmall zones

  pub AllSmall : Children → Type 0
  AllSmall no_more = Unit
  AllSmall (more z zones) = HasSmall z × AllSmall zones

module _ (text : Bytes) (info : PageInfo) (detail : ℕ) where
  -- What a zone gives, if it is put out as one text, and if those below it are.
  abbrev words_in : Option Bytes → Bool → Bytes → GRect → List Word → List Word
  words_in none whole t rect below = []
  words_in (some name) whole t rect below =
      if whole then keep_word [] t (place info rect.xmin rect.ymin rect.xmax rect.ymax) else below

  -- The words of the zones that are put out as one text, in their order.
  unfoldable mutual
    pub zone_words : Zone → List Word
    zone_words (zone ztype rect start length zones) =
        words_in (zone_name ztype) (gather zones detail)
          (to_lstr (zone_text text ztype start length)) rect (children_words zones)

    pub children_words : Children → List Word
    children_words no_more = []
    children_words (more z zones) = zone_words z ++ children_words zones

  abbrev expressions : Children → List Exp
  expressions no_more = []
  expressions (more z zones) = pagetext_sub text z detail ∷ expressions zones

  pagetext_loop-expressions :
      (zones : Children) (p : Exp)
      → pagetext_loop text zones detail p ≡ reverse_onto (list_before (expressions zones) nil) p
  unfolding pagetext_loop reverse_onto
  pagetext_loop-expressions no_more p = refl
  pagetext_loop-expressions (more z zones) p = pagetext_loop-expressions zones (cons _ p)

  head-below :
      (name : Bytes) (rect : GRect) (p : Exp)
      → words_of (zone_head name rect p) info ≡ words_below zero p (zone_head name rect p) info
  unfolding words_of zone_head symbolp
  head-below name rect p = refl

  head-at :
      (name t : Bytes) (rect : GRect) (p : Exp)
      → IsSmall rect
      → word_at info (zone_head name rect p) t
        ≡ keep_word [] t (place info rect.xmin rect.ymin rect.xmax rect.ymax)
  unfolding word_at zone_head numberp to_int nth
  head-at name t rect p h =
      rw
        (
          miniexp_number-fits rect.xmin h.xmin_fits,
          miniexp_number-fits rect.ymin h.ymin_fits,
          miniexp_number-fits rect.xmax h.xmax_fits,
          miniexp_number-fits rect.ymax h.ymax_fits,
        )
        refl

  one-below :
      (node : Exp) (t : Bytes)
      → words_below zero (cons (string t) nil) node info ≡ word_at info node t
  unfolding words_below
  one-below node t = append-nil (word_at info node t)

  -- A zone that is put out as one text.
  gathered-Words :
      (name t : Bytes) (rect : GRect)
      → IsSmall rect
      → words_of (zone_head name rect (cons (string t) nil)) info
        ≡ keep_word [] t (place info rect.xmin rect.ymin rect.xmax rect.ymax)
  gathered-Words name t rect h =
      head-below name rect (cons (string t) nil)
      ∙ one-below (zone_head name rect (cons (string t) nil)) t
      ∙ head-at name t rect (cons (string t) nil) h

  zone_text-string :
      (ztype start length : ℕ)
      → zone_text text ztype start length ≡ string (to_lstr (zone_text text ztype start length))
  unfolding zone_text miniexp_substring to_lstr
  zone_text-string ztype start length = refl

  loop-reverse :
      (zones : Children)
      → miniexp_reverse (pagetext_loop text zones detail nil) ≡ list_before (expressions zones) nil
  loop-reverse zones =
      ap miniexp_reverse (pagetext_loop-expressions zones nil)
      ∙ reverse-reverse_onto (expressions zones)

  pagetext_sub-zone :
      (ztype : ℕ) (rect : GRect) (start length : ℕ) (zones : Children)
      → pagetext_sub text (zone ztype rect start length zones) detail
        ≡ name_zone (zone_name ztype) rect (
            miniexp_reverse (
              if gather zones detail
              then cons (zone_text text ztype start length) nil
              else pagetext_loop text zones detail nil))
  unfolding pagetext_sub
  pagetext_sub-zone ztype rect start length zones = refl

  zone_words-zone :
      (ztype : ℕ) (rect : GRect) (start length : ℕ) (zones : Children)
      → zone_words (zone ztype rect start length zones)
        ≡ words_in
            (zone_name ztype)
            (gather zones detail)
            (to_lstr (zone_text text ztype start length))
            rect
            (children_words zones)
  unfolding zone_words
  zone_words-zone ztype rect start length zones = refl

  named-Words :
      (name : Option Bytes) (whole : Bool) (t : Bytes) (rect : GRect) (zones : Children)
      → IsSmall rect
      → ((node : Exp)
          → words_below zero (list_before (expressions zones) nil) node info ≡ children_words zones)
      → words_of
          (name_zone name rect (
            miniexp_reverse
              (if whole then cons (string t) nil else pagetext_loop text zones detail nil)))
          info
        ≡ words_in name whole t rect (children_words zones)
  named-Words none whole t rect zones h below = unfold words_of in refl
  named-Words (some name) true t rect zones h below =
      (unfold miniexp_reverse reverse_onto in gathered-Words name t rect h)
  named-Words (some name) false t rect zones h below =
      rw (loop-reverse zones) (head-below name rect (list_before (expressions zones) nil) ∙ below _)

  zone-step :
      (ztype : ℕ) (rect : GRect) (start length : ℕ) (zones : Children)
      → IsSmall rect
      → ((node : Exp)
          → words_below zero (list_before (expressions zones) nil) node info ≡ children_words zones)
      → words_of (pagetext_sub text (zone ztype rect start length zones) detail) info
        ≡ zone_words (zone ztype rect start length zones)
  unfolding zone_text to_lstr
  zone-step ztype rect start length zones h below =
      rw
        (
          pagetext_sub-zone ztype rect start length zones,
          zone_words-zone ztype rect start length zones,
          zone_text-string ztype start length,
        )
        (named-Words (zone_name ztype) (gather zones detail) _ rect zones h below)

  name_zone-child :
      (name : Option Bytes) (rect : GRect) (p rest node : Exp)
      → words_below zero (cons (name_zone name rect p) rest) node info
        ≡ words_of (name_zone name rect p) info ++ words_below zero rest node info
  unfolding words_below zone_head
  name_zone-child none rect p rest node = refl
  name_zone-child (some name) rect p rest node = refl

  -- An expression of a zone is no text.
  child-Words :
      (z : Zone) (rest node : Exp)
      → words_below zero (cons (pagetext_sub text z detail) rest) node info
        ≡ words_of (pagetext_sub text z detail) info ++ words_below zero rest node info
  child-Words (zone ztype rect start length zones) rest node =
      rw (pagetext_sub-zone ztype rect start length zones)
        (name_zone-child (zone_name ztype) rect _ rest node)

  no_more-Words : (node : Exp) → words_below zero nil node info ≡ children_words no_more
  unfolding words_below children_words
  no_more-Words node = refl

  more-Words :
      (z : Zone) (zones : Children) (rest node : Exp)
      → words_of (pagetext_sub text z detail) info ≡ zone_words z
      → words_below zero rest node info ≡ children_words zones
      → words_below zero (cons (pagetext_sub text z detail) rest) node info
        ≡ children_words (more z zones)
  unfolding children_words
  more-Words z zones rest node h hs = child-Words z rest node ∙ rw (h, hs) refl

  mutual
    zone-Read : (z : Zone) → HasSmall z → words_of (pagetext_sub text z detail) info ≡ zone_words z
    zone-Read (zone ztype rect start length zones) (h, hs) =
        zone-step ztype rect start length zones h (children-Words zones hs)

    children-Words :
        (zones : Children)
        → AllSmall zones
        → (node : Exp)
        → words_below zero (list_before (expressions zones) nil) node info ≡ children_words zones
    children-Words no_more h node = no_more-Words node
    children-Words (more z zones) (h, hs) node =
        more-Words z zones (list_before (expressions zones) nil) node (zone-Read z h)
          (children-Words zones hs node)

  -- What the adapter finds in the expression of a zone are the texts of the zones that are put out as
  -- one text, in their order, each at its zone's place on the page, if the corners of the zones are
  -- numbers of 30 bits.
  pub pagetext_sub-zone_words :
      (z : Zone) → HasSmall z → words_of (pagetext_sub text z detail) info ≡ zone_words z
  pagetext_sub-zone_words = zone-Read
