-- ===== src/Tests/Paging.antt =====
-- utils/pagination.go at concrete inputs.
use go_backend_kit.Common.{
  str_eq, if◌then◌else◌, none, some, ◌≡◌, refl, arith, pos, negsuc, ◌≤ℤ◌, wrap64, ◌+ℤ◌, ◌-ℤ◌,
}
use go_backend_kit.Pages.{
  Context, get_int_param, get_pagination_params, calculate_pagination, page_offset, pages_for,
  quotient,
}
use go_backend_kit.Pages.Bounds.{IsPaged, asked_page, calculate_pagination-IsPaged}

-- "?page=3".
abbrev third_page : Context
third_page = record {
  query = λ key. if str_eq key "page" then "3" else "";
  atoi = λ value. if str_eq value "3" then some (pos 3) else none;
}

third_page-range : (get_pagination_params third_page).page ≤ℤ pos 92233720368547758
unfolding get_pagination_params
third_page-range = omega arith

calculate_pagination-IsPaged_example :
    IsPaged
      (get_pagination_params third_page).page
      (get_pagination_params third_page).per_page
      (pos 25)
      (asked_page third_page 25)
    × (get_int_param third_page "offset" (pos 0) ≤ℤ pos 0
        → (asked_page third_page 25).offset ≡ (get_pagination_params third_page).offset)
calculate_pagination-IsPaged_example =
    calculate_pagination-IsPaged third_page 25 third_page-range (omega arith)

last_page : (calculate_pagination (pos 3) (pos 10) (pos 25)).offset ≡ pos 20
unfolding calculate_pagination page_offset wrap64 ◌-ℤ◌
last_page = refl

three_pages : pages_for (pos 10) (pos 25) ≡ pos 3
unfolding pages_for quotient wrap64 ◌+ℤ◌ ◌-ℤ◌
three_pages = refl

-- Far enough away, the offset is negative.
far_page : page_offset (pos 92233720368547760) (pos 100) ≡ negsuc 9223372036854775715
unfolding page_offset wrap64 ◌-ℤ◌
far_page = refl
