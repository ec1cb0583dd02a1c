-- ===== src/Decoder/Include/Distinct.antt =====
-- The lists of included files: a name stands in each of them once.
use readflex.Prelude.{
  ℕ, zero, suc, ◌≡◌, refl, inl, inr, false, none, some, List, [], ◌∷◌, Bytes, same, ◌==◌, arith,
  Bool-cases, Option-cases, same_iff,
}
use readflex.Decoder.Files.{
  FileRef, Source, State, find_named, url_of, unlink_file, without_url, set_included,
}
use readflex.Decoder.Include.{insert_at, add_included}

same-sym : (a b : Bytes) → same a b ≡ false → same b a ≡ false
same-sym a b h = ground (arith, same_iff a b, same_iff b a)

module _ (src : Source) where
  abbrev pub Distinct : List FileRef → Type 0
  Distinct [] = Unit
  Distinct (f ∷ fs) = (find_named src (src.fname f.url) fs ≡ none) × Distinct fs

  -- No object includes two files of the same name.
  abbrev pub HasDistinctNames : State → Type 0
  HasDistinctNames s = (n : ℕ) → Distinct (s.included n)

  find_named-insert_at :
      (name : Bytes) (n : ℕ) (f : FileRef) (fs : List FileRef)
      → find_named src name fs ≡ none
      → same (src.fname f.url) name ≡ false
      → find_named src name (insert_at n f fs) ≡ none
  unfolding find_named insert_at
  find_named-insert_at name n f [] h k = ground arith
  find_named-insert_at name zero f (g ∷ gs) h k = ground arith
  find_named-insert_at name (suc n) f (g ∷ gs) h k =
      ground (arith, find_named-insert_at name n f gs)

  Distinct-insert_at :
      (n : ℕ) (f : FileRef) (fs : List FileRef)
      → find_named src (src.fname f.url) fs ≡ none
      → Distinct fs
      → Distinct (insert_at n f fs)
  unfolding insert_at find_named
  Distinct-insert_at n f [] h d = (refl, tt)
  Distinct-insert_at zero f (g ∷ gs) h d = (h, d)
  Distinct-insert_at (suc n) f (g ∷ gs) h (new, d) =
      let apart : same (src.fname g.url) (src.fname f.url) ≡ false = ground arith in
      let rest : find_named src (src.fname f.url) gs ≡ none = ground arith in
      (
        find_named-insert_at (src.fname g.url) n f gs new
            (same-sym (src.fname g.url) (src.fname f.url) apart),
        Distinct-insert_at n f gs rest d,
      )

  find_named-without_url :
      (name url : Bytes) (fs : List FileRef)
      → find_named src name fs ≡ none
      → find_named src name (without_url url fs) ≡ none
  unfolding find_named without_url
  find_named-without_url name url [] h = refl
  find_named-without_url name url (f ∷ fs) h = ground (arith, find_named-without_url name url fs)

  Distinct-without_url :
      (url : Bytes) (fs : List FileRef) → Distinct fs → Distinct (without_url url fs)
  unfolding without_url
  Distinct-without_url url [] d = tt
  Distinct-without_url url (f ∷ fs) (new, d) = elim (Bool-cases (same f.url url)) [
    | inl e ↦ rw (e, without_url) (Distinct-without_url url fs d)
    | inr e ↦
        rw (e, without_url)
          (find_named-without_url (src.fname f.url) url fs new, Distinct-without_url url fs d)
  ]

  pub set_included-HasDistinctNames :
      (n : ℕ) (files : List FileRef) (s : State)
      → HasDistinctNames s
      → Distinct files
      → HasDistinctNames (set_included n files s)
  set_included-HasDistinctNames n files s d h k = elim (Bool-cases (k == n)) [
    | inl e ↦ rw e h
    | inr e ↦ rw e (d k)
  ]

  pub unlink_file-HasDistinctNames :
      (file : FileRef) (id : Bytes) (s : State)
      → HasDistinctNames s
      → HasDistinctNames (unlink_file src file id s)
  unfolding unlink_file
  unlink_file-HasDistinctNames file id s d =
      set_included-HasDistinctNames file.number
        (without_url (url_of src file id) (s.included file.number)) s d
        (Distinct-without_url (url_of src file id) (s.included file.number) (d file.number))

  pub url_of-named :
      (file f : FileRef) (id : Bytes) → src.id_to_url id ≡ some f.url → url_of src file id ≡ f.url
  unfolding url_of
  url_of-named file f id e = rw (e, url_of) refl

  pub add_included-HasDistinctNames :
      (file f : FileRef) (file_num : ℕ) (name : Bytes) (s : State)
      → name ≡ src.fname f.url
      → HasDistinctNames s
      → HasDistinctNames (add_included src file file_num name f s).1
  unfolding add_included
  add_included-HasDistinctNames file f file_num name s e d =
      elim (Option-cases (find_named src name (s.included file.number))) [
        | inl new ↦
            rw (new, add_included)
              (set_included-HasDistinctNames file.number
                (insert_at file_num f (s.included file.number)) s d
                (Distinct-insert_at file_num f (s.included file.number) (rw e at new)
                  (d file.number)))
        | inr (g, old) ↦ rw (old, add_included) d
      ]
