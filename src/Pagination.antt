-- ===== src/Pagination.antt =====
-- src/pagination/helpers/pagination.helper.ts: the description of a page. `limit` is positive, which
-- the query's validation sees to.
pub mod Pages
pub mod Cursors
use atraport_api.Prelude.{ℕ, ◌+◌, ◌-◌, ◌*◌, ◌/◌, Bool, List, ltb}

pub record PaginationMeta : Type 0 where
  pub total : ℕ
  pub page : ℕ
  pub limit : ℕ
  pub total_pages : ℕ
  pub has_next : Bool
  pub has_previous : Bool

pub record PaginatedResponse {ℓ} (A : Type ℓ) : Type ℓ where
  pub data_ : List A
  pub meta : PaginationMeta

-- `Math.ceil(total / limit)`
unfoldable pub build_pagination_meta : ℕ → ℕ → ℕ → PaginationMeta
build_pagination_meta total page limit =
    let total_pages = (total + (limit - 1)) / limit in
    record {
      total = total;
      page = page;
      limit = limit;
      total_pages = total_pages;
      has_next = ltb page total_pages;
      has_previous = ltb 1 page;
    }

unfoldable pub create_offset_paginated_response {ℓ} :
    {A : Type ℓ} → List A → ℕ → ℕ → ℕ → PaginatedResponse A
create_offset_paginated_response items total page limit = record {
  data_ = items;
  meta = build_pagination_meta total page limit;
}
