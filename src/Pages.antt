-- ===== src/Pages.antt =====
-- utils/pagination.go: pages, offsets, cursors and sort orders of a request.
pub mod Bounds
use go_backend_kit.Common.{
  ℕ, suc, ◌+◌, ◌*◌, ◌/◌, String, str_eq, Bool, if◌then◌else◌, Option, none, some, List, [], ◌∷◌, ℤ,
  pos, negsuc, pos_part, neg_part, sub_ℕ, wrap64, ◌+ℤ◌, ◌-ℤ◌, ltb_ℤ, eq_ℤ,
}

-- `*` and `/` of Go before the result is cut to 64 bits; the quotient is truncated towards zero.
infixl 70 ◌*ℤ◌
unfoldable pub ◌*ℤ◌ : ℤ → ℤ → ℤ
a *ℤ b =
    sub_ℕ (pos_part a * pos_part b + neg_part a * neg_part b)
      (pos_part a * neg_part b + neg_part a * pos_part b)

unfoldable pub quotient : ℤ → ℤ → ℤ
quotient (pos a) (pos b) = pos (a / b)
quotient (pos a) (negsuc b) = sub_ℕ 0 (a / suc b)
quotient (negsuc a) (pos b) = sub_ℕ 0 (suc a / b)
quotient (negsuc a) (negsuc b) = pos (suc a / suc b)

pub record PaginationParams : Type 0 where
  pub page : ℤ
  pub per_page : ℤ
  pub offset : ℤ

pub record PaginationResult : Type 0 where
  pub page : ℤ
  pub per_page : ℤ
  pub total : ℤ
  pub total_pages : ℤ
  pub has_next : Bool
  pub has_prev : Bool
  pub offset : ℤ

-- What the handlers read of a request, and `strconv.Atoi`, which gives `none` on an error.
pub record Context : Type 0 where
  pub query : String → String
  pub atoi : String → Option ℤ

unfoldable pub get_int_param : Context → String → ℤ → ℤ
get_int_param c key default_value =
    let value = c.query key in
    if str_eq value ""
    then default_value
    else elim (c.atoi value) [ none ↦ default_value | some n ↦ n ]

-- `if x < low { x = value }` and `if x > high { x = high }`.
abbrev pub if_below : ℤ → ℤ → ℤ → ℤ
if_below low value x = if ltb_ℤ x low then value else x

abbrev pub at_most : ℤ → ℤ → ℤ
at_most high x = if ltb_ℤ high x then high else x

unfoldable pub page_offset : ℤ → ℤ → ℤ
unfolding ◌*ℤ◌
page_offset page per_page = wrap64 (wrap64 (page -ℤ pos 1) *ℤ per_page)

-- A missing or zero offset is the one of the page.
unfoldable pub offset_or_page : ℤ → ℤ → ℤ → ℤ
unfolding page_offset
offset_or_page offset page per_page =
    if eq_ℤ offset (pos 0) then page_offset page per_page else offset

unfoldable pub get_pagination_params_with_defaults : Context → ℤ → ℤ → ℤ → PaginationParams
unfolding get_int_param offset_or_page
get_pagination_params_with_defaults c default_page default_per_page max_per_page =
    let page = if_below (pos 1) default_page (get_int_param c "page" default_page) in
    let per_page =
      at_most max_per_page
        (if_below (pos 1) default_per_page (get_int_param c "per_page" default_per_page)) in
    record {
      page = page;
      per_page = per_page;
      offset =
          offset_or_page (if_below (pos 0) (pos 0) (get_int_param c "offset" (pos 0))) page
            per_page;
    }

unfoldable pub get_pagination_params : Context → PaginationParams
unfolding get_int_param offset_or_page
get_pagination_params c =
    let page = if_below (pos 1) (pos 1) (get_int_param c "page" (pos 1)) in
    let per_page =
      at_most (pos 100) (if_below (pos 1) (pos 10) (get_int_param c "per_page" (pos 10))) in
    record {
      page = page;
      per_page = per_page;
      offset =
          offset_or_page (if_below (pos 0) (pos 0) (get_int_param c "offset" (pos 0))) page
            per_page;
    }

unfoldable pub pages_for : ℤ → ℤ → ℤ
pages_for per_page total =
    if_below (pos 1) (pos 1)
      (wrap64 (quotient (wrap64 (wrap64 (total +ℤ per_page) -ℤ pos 1)) per_page))

unfoldable pub calculate_pagination : ℤ → ℤ → ℤ → PaginationResult
calculate_pagination asked_page asked_per_page total =
    let page = if_below (pos 1) (pos 1) asked_page in
    let per_page = if_below (pos 1) (pos 10) asked_per_page in
    let total_pages = pages_for per_page total in
    record {
      page = page;
      per_page = per_page;
      total = total;
      total_pages = total_pages;
      has_next = ltb_ℤ page total_pages;
      has_prev = ltb_ℤ (pos 1) page;
      offset = page_offset page per_page;
    }
