-- ===== src/Decoder.antt =====
-- The part of ddjvuapi.cpp (under packages/pagecraft/native/djvu/upstream/libdjvu) that builds the
-- expressions the adapter reads, `miniexp_status`, and the list of the expressions that a document
-- protects. An expression that is protected is given by its address.
pub mod Bookmarks
pub mod Zones
pub mod Annotations
pub mod Keys
pub mod Documents
pub mod Files
pub mod Include
pub mod ByteStream
pub mod Layout
pub mod Text
pub mod Nav
mod Protection
mod Tests
use readflex.Prelude.{ℕ, Bool, List, [], ◌∷◌, Bytes, codes, ◌==◌, ◌||◌, if◌then◌else◌}
use readflex.Exp.{Exp, nil, symbol, dummy}
use readflex.Page.{Status, job_notstarted, job_started, job_ok, job_failed, job_stopped}

unfoldable pub miniexp_status : Status → Exp
miniexp_status job_notstarted = dummy
miniexp_status job_started = dummy
miniexp_status job_ok = nil
miniexp_status job_failed = symbol (codes "failed")
miniexp_status job_stopped = symbol (codes "stopped")

unfoldable pub is_protected : List ℕ → ℕ → Bool
is_protected [] expr = Bool.false
is_protected (p ∷ ps) expr = p == expr || is_protected ps expr

-- `is_kept` is whether the expression is a pair or an object.
unfoldable pub miniexp_protect : List ℕ → ℕ → Bool → List ℕ
unfolding is_protected
miniexp_protect ps expr is_kept =
    if is_protected ps expr then ps else if is_kept then expr ∷ ps else ps

unfoldable pub miniexp_release : List ℕ → ℕ → List ℕ
miniexp_release [] expr = []
miniexp_release (p ∷ ps) expr =
    let rest = miniexp_release ps expr in if p == expr then rest else p ∷ rest
