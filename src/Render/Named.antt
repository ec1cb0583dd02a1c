-- ===== src/Render/Named.antt =====
-- The errors of `pagecraft_djvu_render` have a text.
use readflex.Prelude.{ℤ, arith}
use readflex.Failure.{Named}
use readflex.Page.Named.{page_info-Named}
use readflex.Page.{Pages}
use readflex.Render.{Request, Renderer, render_pixels, render_format, render_page, render}
use readflex.Resource.{after, scoped, handed_over}
use readflex.Wait.Named.{wait_for-Named}

render_page-Named : (doc : Pages) (d : Renderer) (r : Request) → Named (render_page doc d r).result
unfolding render_page render_format render_pixels after scoped handed_over
render_page-Named doc d r = ground (arith, wait_for-Named doc.timeout_ms d.decoding_done)

pub render-Named :
    (doc : Pages) (d : Renderer) (index : ℤ) (r : Request) → Named (render doc d index r).result
unfolding render after scoped
render-Named doc d index r = ground (arith, page_info-Named doc index, render_page-Named doc d r)
