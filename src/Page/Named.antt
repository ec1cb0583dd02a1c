-- ===== src/Page/Named.antt =====
-- The errors of `page_info` have a text.
use readflex.Prelude.{ℤ}
use readflex.Failure.{Named, Named-bind, Named-reject, bad_page, page_out_of_range}
use readflex.Page.{Pages, is_bad_page, check_page, info_wait, page_info}
use readflex.Wait.Named.{wait_for-Named}

pub page_info-Named : (doc : Pages) (index : ℤ) → Named (page_info doc index)
unfolding page_info check_page info_wait
page_info-Named doc index =
    Named-bind (check_page doc index) _ (Named-reject _ page_out_of_range tt) λ _.
      Named-bind (info_wait doc index) _ (wait_for-Named doc.timeout_ms _)
        λ (s, info). Named-bind _ _ (Named-reject (is_bad_page s info) bad_page tt) λ _. tt
