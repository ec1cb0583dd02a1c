-- ===== src/Container/Accepts.antt =====
-- What `validate_container` accepts, said of the bytes of the file.
use readflex.Prelude.{
  ℕ, ◌+◌, ◌≤◌, ◌≡◌, ◌↔◌, ◌⊎◌, inl, inr, true, Bytes, length, take, drop, same, same_iff, get_or,
  arith, Bool-cases,
}
use readflex.Failure.{unsupported_container, ok, err}
use readflex.Container.Chunks.{Chunks, scan_chunks_iff}
use readflex.Container.{
  big_endian, at_t_form, djvm, djvu, dirm, has_bit, max_nodes, check_bundled, check_kind,
  check_file,
}

-- The form's length field counts what follows it, at offset 12.
abbrev pub form_end : Bytes → ℕ
form_end file = 12 + big_endian (drop 8 (take 16 file))

abbrev pub form_kind : Bytes → Bytes
form_kind file = drop 12 (take 16 file)

pub record IsForm (file : Bytes) : Type 0 where
  pub has_header : 16 ≤ length file
  pub magic : take 8 (take 16 file) ≡ at_t_form
  pub end_ge : 16 ≤ form_end file
  pub end_le : form_end file ≤ length file

-- A bundled document: its first chunk is a directory, marked as bundled.
pub record IsBundled (file : Bytes) : Type 0 where
  pub kind : form_kind file ≡ djvm
  pub fits : 25 ≤ form_end file
  pub directory : take 4 (take 9 (drop 16 file)) ≡ dirm
  pub nonempty : 1 ≤ big_endian (drop 4 (take 9 (drop 16 file)))
  pub bundled : has_bit 7 (get_or (take 9 (drop 16 file)) 8 0) ≡ true

-- A single page of at most `max_nodes` chunks, none of which refers to another file.
pub record IsStandalone (file : Bytes) : Type 0 where
  pub kind : form_kind file ≡ djvu
  pub chunks : ℕ
  pub few : chunks ≤ max_nodes
  pub internal : Chunks file (form_end file) 16 chunks

check_bundled_iff :
    (file : Bytes)
    → form_end file ≤ length file
    → form_kind file ≡ djvm
    → (check_bundled file (form_end file) ≡ ok tt) ↔ IsBundled file
unfolding check_bundled
check_bundled_iff file h k = (
  λ e. ground (arith, same_iff (take 4 (take 9 (drop 16 file))) dirm),
  λ b. ground (arith, same_iff (take 4 (take 9 (drop 16 file))) dirm, b.directory),
)

check_kind_iff :
    (file : Bytes)
    → form_end file ≤ length file
    → (check_kind file (form_end file) (form_kind file) ≡ ok tt)
      ↔ (IsBundled file ⊎ IsStandalone file)
unfolding check_kind same
check_kind_iff file h = (accepted, accepts)
  where
    accepted :
        check_kind file (form_end file) (form_kind file) ≡ ok tt
        → IsBundled file ⊎ IsStandalone file
    accepted e = elim (Bool-cases (same (form_kind file) djvm)) [
      | inl multi ↦
          let kind = (same_iff (form_kind file) djvm).0 multi in
          inl ((check_bundled_iff file h kind).0 (rw (check_kind, multi) at e))
      | inr other ↦ elim (Bool-cases (same (form_kind file) djvu)) [
        | inl single ↦
            let scan = scan_chunks_iff max_nodes file (form_end file) 16 in
            let (n, few, chunks) = scan.0 (rw (check_kind, other, single) at e) in
            inr (record {
              kind = (same_iff (form_kind file) djvu).0 single;
              chunks = n;
              few = few;
              internal = chunks;
            })
        | inr neither ↦
            let stuck : err unsupported_container ≡ ok tt = rw (check_kind, other, neither) at e in
            cc
      ]
    ]

    accepts :
        IsBundled file ⊎ IsStandalone file
        → check_kind file (form_end file) (form_kind file) ≡ ok tt
    accepts (inl b) =
        rw (check_kind, (same_iff (form_kind file) djvm).1 b.kind)
          ((check_bundled_iff file h b.kind).1 b)
    accepts (inr s) =
        rw (check_kind, s.kind)
          ((scan_chunks_iff max_nodes file (form_end file) 16).1 (s.chunks, s.few, s.internal))

pub check_file_iff :
    (file : Bytes)
    → (check_file file ≡ ok tt) ↔ (IsForm file × (IsBundled file ⊎ IsStandalone file))
unfolding check_file
check_file_iff file = (
  λ e.
      ground
        (arith, same_iff (take 8 (take 16 file)) at_t_form, (check_kind_iff file (ground arith)).0),
  λ a.
      ground
        (arith, same_iff (take 8 (take 16 file)) at_t_form, (check_kind_iff file a.0.end_le).1 a.1),
)
