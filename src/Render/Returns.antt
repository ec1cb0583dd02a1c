-- ===== src/Render/Returns.antt =====
-- Every way through `pagecraft_djvu_render`: what it returns, and that it gives back what it takes.
use readflex.Prelude.{
  ◌≡◌, ◌↔◌, true, ◌⊎◌, inl, inr, arith, false, some, Option-cases, Bool-cases, List, [], ◌∷◌, Bytes,
  ℤ,
}
use readflex.Failure.{Error, Result, ok, err, Result-cases, cannot_render, bad_alloc}
use readflex.Page.{Pages, PageInfo, page_info}
use readflex.Render.{
  Request, Renderer, is_bad_region, buffer_length, row_stride, render_pixels, render_format,
  render_page, render,
}
use readflex.Resource.{
  Resource, page, pixels, acquire, release, Run, after, scoped, handed_over, throws, give_back,
  replay,
}
use readflex.Wait.{wait_for}

-- The resources that a run leaves with the caller: on success the pixels alone, else nothing.
abbrev pub left : Result Bytes → List Resource
left (ok bytes) = pixels ∷ []
left (err e) = []

abbrev pub IsBalanced : Run Bytes → Type 0
IsBalanced run = replay run.events [] ≡ some (left run.result)

render_pixels-left :
    (d : Renderer) (r : Request)
    → ((e : Error) × (render_pixels d r ≡ throws e))
      ⊎ ((e : Error) × (render_pixels d r
            ≡ record { result = err e; events = acquire pixels ∷ release pixels ∷ [] }))
      ⊎ ((bytes : Bytes) × (render_pixels d r
            ≡ record { result = ok bytes; events = acquire pixels ∷ [] }))
unfolding render_pixels handed_over
render_pixels-left d r = elim (Bool-cases (d.has_memory (buffer_length r))) [
  | inl memory ↦ elim (Option-cases (d.renders r (buffer_length r) (row_stride r))) [
    | inl failed ↦ inr (inl (cannot_render, rw (render_pixels, memory, failed, handed_over)))
    | inr (bytes, drawn) ↦ inr (inr (bytes, rw (render_pixels, memory, drawn, handed_over)))
  ]
  | inr full ↦ inl (bad_alloc, rw (render_pixels, full))
]

render_page-IsBalanced :
    (doc : Pages) (d : Renderer) (r : Request) → IsBalanced (scoped page (render_page doc d r))
unfolding render_page render_format after scoped replay give_back
render_page-IsBalanced doc d r = elim (Result-cases (wait_for doc.timeout_ms d.decoding_done)) [
  | inl (_, done) ↦ elim (render_pixels-left d r) [
    | inl (e, p) ↦ ground arith
    | inr (inl (e, p)) ↦ ground arith
    | inr (inr (bytes, p)) ↦ ground arith
  ]
  | inr (e, bad) ↦ ground arith
]

-- Whatever the decoder and the allocator answer, a rendering releases every object that it took, the
-- pixels alone excepted if it succeeds: those are the caller's.
pub render-IsBalanced :
    (doc : Pages) (d : Renderer) (index : ℤ) (r : Request) → IsBalanced (render doc d index r)
unfolding render after replay
render-IsBalanced doc d index r = elim (Result-cases (page_info doc index)) [
  | inl (_, found) ↦ elim (Bool-cases (is_bad_region r)) [
    | inl bad ↦ rw (render, found, after, bad)
    | inr good ↦ ground (arith, render_page-IsBalanced doc d r)
  ]
  | inr (e, bad) ↦ rw (render, bad, after)
]

-- What a rendering that succeeds has gone through.
pub record Renders (doc : Pages) (d : Renderer) (index : ℤ) (r : Request) (bytes : Bytes)
    : Type 0 where
  pub page_found : (info : PageInfo) × (page_info doc index ≡ ok info)
  pub in_region : is_bad_region r ≡ false
  pub page_opened : d.opens_page ≡ true
  pub decoded : wait_for doc.timeout_ms d.decoding_done ≡ ok tt
  pub no_error : d.decoding_error ≡ false
  pub format_made : d.makes_format ≡ true
  pub memory : d.has_memory (buffer_length r) ≡ true
  pub drawn : d.renders r (buffer_length r) (row_stride r) ≡ some bytes

render-Renders :
    (doc : Pages) (d : Renderer) (index : ℤ) (r : Request) {bytes : Bytes}
    → (render doc d index r).result ≡ ok bytes
    → Renders doc d index r bytes
unfolding render render_page render_format render_pixels after scoped handed_over
render-Renders doc d index r e = elim (Result-cases (page_info doc index)) [
  | inl (info, found) ↦ record {
    page_found = (info, found);
    in_region = ground arith;
    page_opened = ground arith;
    decoded = ground arith;
    no_error = ground arith;
    format_made = ground arith;
    memory = ground arith;
    drawn = ground arith;
  }
  | inr (f, bad) ↦ absurd (ground arith)
]

Renders-render :
    (doc : Pages) (d : Renderer) (index : ℤ) (r : Request) {bytes : Bytes}
    → Renders doc d index r bytes
    → (render doc d index r).result ≡ ok bytes
unfolding render render_page render_format render_pixels after scoped handed_over
Renders-render doc d index r p = rw (
  p.page_found.1, p.in_region, p.page_opened, p.decoded, p.no_error, p.format_made, p.memory,
  p.drawn,
)

-- A rendering succeeds exactly for a page of the document, a region that the guard lets through, a
-- page that opens and decodes, a format and a buffer that are made, and a drawing that the decoder
-- does; the bytes are what the decoder has then written for that region into a buffer of
-- `buffer_length` bytes with tight rows.
pub render_iff :
    (doc : Pages) (d : Renderer) (index : ℤ) (r : Request) (bytes : Bytes)
    → ((render doc d index r).result ≡ ok bytes) ↔ Renders doc d index r bytes
render_iff doc d index r bytes = (render-Renders doc d index r, Renders-render doc d index r)
