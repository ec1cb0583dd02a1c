-- ===== src/Failure.antt =====
-- The exceptions of packages/pagecraft/native/djvu/pagecraft_djvu.cpp: one constructor for each
-- `throw` text, `decoder` for the text that DjVuLibre reports, `bad_alloc` for `std::bad_alloc`,
-- `foreign` for whatever is thrown and is no `std::exception`.
-- `what` is `std::exception::what`, which `guarded` copies into `last_error`.
use readflex.Prelude.{
  subst, ◌≢◌, [], ◌≡◌, refl, Bool, true, false, if◌then◌else◌, Bytes, codes, ◌⊎◌, inl, inr,
}

pub data Error : Type 0 where
  document_closed no_path cannot_open_file not_djvu truncated indirect too_many_chunks : Error
  bad_chunk_size external_component unsupported_container page_out_of_range bad_page : Error
  timed_out text_too_long result_too_long unreadable_text text_structure text_nodes : Error
  outline_depth outline_size no_context cannot_open_document cannot_decode_document : Error
  unsupported_structure no_page_output bad_region cannot_open_page cannot_decode_page : Error
  no_pixel_format cannot_render bad_alloc foreign : Error
  decoder : Bytes → Error

pub what : Error → Bytes
what document_closed = codes "DjVu document is closed"
what no_path = codes "Missing DjVu file path"
what cannot_open_file = codes "Cannot open DjVu file"
what not_djvu = codes "Not a DjVu document"
what truncated = codes "Truncated DjVu container"
what indirect = codes "Indirect DjVu documents are not supported"
what too_many_chunks = codes "Too many DjVu chunks"
what bad_chunk_size = codes "Invalid DjVu chunk size"
what external_component = codes "External DjVu components are not supported"
what unsupported_container = codes "Unsupported DjVu container type"
what page_out_of_range = codes "DjVu page index is out of range"
what bad_page = codes "Invalid or oversized DjVu page"
what timed_out = codes "DjVu decoding timed out"
what text_too_long = codes "DjVu text exceeds its size limit"
what result_too_long = codes "DjVu result exceeds its size limit"
what unreadable_text = codes "Cannot read DjVu text data"
what text_structure = codes "DjVu text structure exceeds its limit"
what text_nodes = codes "DjVu text exceeds its node limit"
what outline_depth = codes "DjVu outline exceeds its depth limit"
what outline_size = codes "DjVu outline exceeds its size limit"
what no_context = codes "Cannot create DjVu decoder"
what cannot_open_document = codes "Cannot open DjVu document"
what cannot_decode_document = codes "Cannot decode DjVu document"
what unsupported_structure = codes "Unsupported DjVu document structure"
what no_page_output = codes "Missing DjVu page output"
what bad_region = codes "Invalid or oversized DjVu render region"
what cannot_open_page = codes "Cannot open DjVu page"
what cannot_decode_page = codes "Cannot decode DjVu page"
what no_pixel_format = codes "Cannot create DjVu pixel format"
what cannot_render = codes "Cannot render DjVu page"
what bad_alloc = codes "std::bad_alloc"
what foreign = codes "DjVu operation failed"
what (decoder text) = text

-- What a block of code does: it throws, or it ends with a value.
pub data Result {ℓ} (Value : Type ℓ) : Type ℓ where
  err : Error → Result Value
  ok : Value → Result Value

-- `if (bad) throw e;`
abbrev pub reject : Bool → Error → Result (Unit {0})
reject bad e = if bad then err e else ok tt

-- Blocks in sequence: an exception ends them all.
infixl 5 ◌>>=◌ ◌>>◌
abbrev pub ◌>>=◌ {ℓ κ} :
    {Value : Type ℓ} {Last : Type κ} → Result Value → (Value → Result Last) → Result Last
err thrown >>= rest = err thrown
ok value >>= rest = rest value

abbrev pub ◌>>◌ {κ} : {Last : Type κ} → Result (Unit {0}) → Result Last → Result Last
first >> rest = first >>= λ done. rest

-- The value of a block that ended inside a sequence that did.
pub >>=-eq-ok {ℓ κ} :
    {Value : Type ℓ} {Last : Type κ} (first : Result Value) (rest : Value → Result Last)
    {last : Last}
    → (first >>= rest) ≡ ok last
    → (value : Value) × (first ≡ ok value) × (rest value ≡ ok last)
>>=-eq-ok (err thrown) rest ended = cc
>>=-eq-ok (ok value) rest ended = (value, refl, ended)

pub Result-cases {ℓ} :
    {A : Type ℓ} (m : Result A) → ((a : A) × (m ≡ ok a)) ⊎ ((e : Error) × (m ≡ err e))
Result-cases (ok a) = inl (a, refl)
Result-cases (err e) = inr (e, refl)

pub reject-ok : (bad : Bool) (e : Error) → reject bad e ≡ ok tt → bad ≡ false
reject-ok true e h = cc
reject-ok false e h = refl

-- A postcondition on success, and its rule for a sequence of steps.
abbrev pub Ensures {ℓ κ} : {A : Type ℓ} → (A → Type κ) → Result A → Type κ
Ensures P (ok a) = P a
Ensures P (err e) = Unit

pub Ensures-bind {ℓ κ μ ν} :
    {A : Type ℓ} {B : Type κ} (P : A → Type μ) (Q : B → Type ν) (m : Result A) (f : A → Result B)
    → Ensures P m
    → ((a : A) → P a → Ensures Q (f a))
    → Ensures Q (m >>= f)
Ensures-bind P Q (ok a) f h k = k a h
Ensures-bind P Q (err e) f h k = tt

pub Ensures-mono {ℓ κ μ} :
    {A : Type ℓ} {P : A → Type κ} {Q : A → Type μ} (m : Result A)
    → Ensures P m
    → ((a : A) → P a → Q a)
    → Ensures Q m
Ensures-mono (ok a) h k = k a h
Ensures-mono (err e) h k = tt

pub Ensures-ok {ℓ κ} :
    {A : Type ℓ} (P : A → Type κ) {m : Result A} {a : A} → m ≡ ok a → Ensures P m → P a
Ensures-ok P e h = subst (Ensures P) e h

-- What is known behind `if (bad) throw e;`.
pub reject->> {ℓ} :
    {B : Type ℓ} (bad : Bool) (e : Error) (k : Result B) {b : B}
    → (reject bad e >> k) ≡ ok b
    → (bad ≡ false) × (k ≡ ok b)
reject->> true e k h = cc
reject->> false e k h = (refl, h)

pub ok-injective {ℓ} : {A : Type ℓ} {a b : A} → ok a ≡ ok b → a ≡ b
ok-injective e = cc

-- An error with a text. The decoder's own text is the one that could be empty.
abbrev pub IsNamed : Error → Type 0
IsNamed (decoder []) = ⊥
IsNamed _ = Unit

pub what-ne-nil : (e : Error) → IsNamed e → what e ≢ []
unfolding what
what-ne-nil (decoder []) n h = n
what-ne-nil _ n h = cc

-- A step whose error, if it throws one, has a text.
abbrev pub Named {ℓ} : {A : Type ℓ} → Result A → Type 0
Named (ok a) = Unit
Named (err e) = IsNamed e

pub Named-bind {ℓ κ} :
    {A : Type ℓ} {B : Type κ} (m : Result A) (f : A → Result B)
    → Named m
    → ((a : A) → Named (f a))
    → Named (m >>= f)
Named-bind (ok a) f h k = k a
Named-bind (err e) f h k = h

pub Named-reject : (bad : Bool) (e : Error) → IsNamed e → Named (reject bad e)
Named-reject true e h = h
Named-reject false e h = tt
