-- ===== src/Pages/Bounds.antt =====
-- utils/pagination.go: a page and its neighbours.
use native.Mathlib.Nat.{mul-le-mul_right, mul-le-mul}
use go_backend_kit.Common.{
  ℕ, zero, suc, ◌+◌, ◌-◌, ◌*◌, ◌/◌, ◌≤◌, ◌<◌, ◌≡◌, ◌↔◌, refl, sym, true, wrap64, arith, Bool-cases,
  ◌-ℤ◌, ◌+ℤ◌, ◌≤ℤ◌, ◌<ℤ◌, negsuc, ℤ, pos, inl, inr, ltb, wrap64_id, if◌then◌else◌,
}
use go_backend_kit.Pages.{
  Context, PaginationResult, get_int_param, get_pagination_params, offset_or_page, if_below,
  at_most, calculate_pagination, page_offset, pages_for, quotient, ◌*ℤ◌,
}

-- The pages that a number of items takes.
abbrev pub page_count : ℕ → ℕ → ℕ
page_count per_page total = (total + per_page - 1) / per_page

page_count-reaches :
    (n per_page total : ℕ) → 1 ≤ per_page → (n < page_count per_page total) ↔ (n * per_page < total)
page_count-reaches n per_page total h = (
  λ k. ground (arith, mul-le-mul_right per_page k),
  λ k. elim (Bool-cases (ltb n (page_count per_page total))) [
    | inl b ↦ ground arith
    | inr b ↦
        let low : page_count per_page total ≤ n = ground arith in
        ground (arith, mul-le-mul_right per_page low)
  ],
)

pages_for-pos :
    (per_page total : ℕ)
    → 1 ≤ per_page
    → total + per_page < 9223372036854775808
    → pages_for (pos per_page) (pos total)
      ≡ (if ltb (page_count per_page total) 1 then pos 1 else pos (page_count per_page total))
unfolding pages_for quotient wrap64 ◌+ℤ◌ ◌-ℤ◌
pages_for-pos per_page total h l =
    let added : wrap64 (wrap64 (pos total +ℤ pos per_page) -ℤ pos 1) ≡ pos (total + per_page - 1) =
      ground arith in
    let few : page_count per_page total < 9223372036854775808 = ground arith in
    rw
      (
        added,
        wrap64_id (pos (page_count per_page total)) (record { above = few; below = omega arith }),
      )
      (ground arith)

-- A page of a result, in exact integers: its offset, and whether there are items after and before.
pub record IsPaged (page per_page total : ℤ) (r : PaginationResult) : Type 0 where
  pub same_page : r.page ≡ page
  pub same_size : r.per_page ≡ per_page
  pub same_total : r.total ≡ total
  pub exact_offset : r.offset ≡ (page -ℤ pos 1) *ℤ per_page
  pub next_iff : (r.has_next ≡ true) ↔ (r.offset +ℤ r.per_page <ℤ total)
  pub prev_iff : (r.has_prev ≡ true) ↔ (pos 0 <ℤ r.offset)

page_offset-pos :
    (n per_page : ℕ)
    → n < 9223372036854775807
    → n * per_page < 9223372036854775808
    → page_offset (pos (suc n)) (pos per_page) ≡ pos (n * per_page)
unfolding page_offset wrap64 ◌-ℤ◌ ◌*ℤ◌
page_offset-pos n per_page h l =
    let before : wrap64 (pos (suc n) -ℤ pos 1) ≡ pos n = ground arith in
    let product : pos n *ℤ pos per_page ≡ pos (n * per_page) = ground arith in
    rw (before, product)
      (wrap64_id (pos (n * per_page)) (record { above = l; below = omega arith }))

exact_offset-pos : (n per_page : ℕ) → (pos (suc n) -ℤ pos 1) *ℤ pos per_page ≡ pos (n * per_page)
unfolding ◌-ℤ◌ ◌*ℤ◌
exact_offset-pos n per_page =
    let before : pos (suc n) -ℤ pos 1 ≡ pos n = ground arith in rw before (ground arith)

product-positive : (a b : ℕ) → 1 ≤ b → (0 < a * b) ↔ (0 < a)
product-positive a b h = (
  λ k. elim (Bool-cases (ltb 0 a)) [
    | inl c ↦ ground arith
    | inr c ↦ let none_left : a ≤ 0 = ground arith in ground (arith, mul-le-mul_right b none_left)
  ],
  λ k. let one_left : 1 ≤ a = k in ground (arith, mul-le-mul_right b one_left),
)

pos-IsPaged :
    (n per_page total : ℕ)
    → n < 9223372036854775807
    → n * per_page < 9223372036854775808
    → 1 ≤ per_page
    → total + per_page < 9223372036854775808
    → IsPaged
        (pos (suc n))
        (pos per_page)
        (pos total)
        (calculate_pagination (pos (suc n)) (pos per_page) (pos total))
unfolding calculate_pagination ◌+ℤ◌
pos-IsPaged n per_page total h l s m =
    let first : if_below (pos 1) (pos 1) (pos (suc n)) ≡ pos (suc n) = ground arith in
    let size : if_below (pos 1) (pos 10) (pos per_page) ≡ pos per_page = ground arith in
    let offset = page_offset-pos n per_page h l in
    let reaches = page_count-reaches (suc n) per_page total s in
    rw (first, size, offset, pages_for-pos per_page total s m)
      (record {
        same_page = refl;
        same_size = refl;
        same_total = refl;
        exact_offset = sym (exact_offset-pos n per_page);
        next_iff = ground (arith, reaches);
        prev_iff = ground (arith, product-positive n per_page s);
      })

-- The limits of a request's page and page size.
get_pagination_params-limits :
    (c : Context)
    → (pos 1 ≤ℤ (get_pagination_params c).page)
      × (pos 1 ≤ℤ (get_pagination_params c).per_page)
      × ((get_pagination_params c).per_page ≤ℤ pos 100)
unfolding get_pagination_params
get_pagination_params-limits c = ground arith

limited-IsPaged :
    (page per_page : ℤ) (total : ℕ)
    → (pos 1 ≤ℤ page) × (pos 1 ≤ℤ per_page) × (per_page ≤ℤ pos 100)
    → page ≤ℤ pos 92233720368547758
    → total ≤ 9223372036854775707
    → IsPaged page per_page (pos total) (calculate_pagination page per_page (pos total))
limited-IsPaged (pos (suc n)) (pos per_page) total (p, s, m) h l =
    let many : n ≤ 92233720368547757 = omega arith in
    let few : per_page ≤ 100 = omega arith in
    pos-IsPaged n per_page total (omega arith) (omega (arith, mul-le-mul many few)) (omega arith)
      (omega arith)
limited-IsPaged (pos zero) per_page total (p, s, m) h l = absurd (omega arith)
limited-IsPaged (negsuc n) per_page total (p, s, m) h l = absurd (omega arith)
limited-IsPaged (pos (suc n)) (negsuc k) total (p, s, m) h l = absurd (omega arith)

-- The limits change nothing the second time.
page_again :
    (x : ℤ) → if_below (pos 1) (pos 1) (if_below (pos 1) (pos 1) x) ≡ if_below (pos 1) (pos 1) x
page_again x = ground arith

size_again :
    (x : ℤ)
    → if_below (pos 1) (pos 10) (at_most (pos 100) (if_below (pos 1) (pos 10) x))
      ≡ at_most (pos 100) (if_below (pos 1) (pos 10) x)
size_again x = ground arith

no_offset :
    (x page per_page : ℤ)
    → x ≤ℤ pos 0
    → offset_or_page (if_below (pos 0) (pos 0) x) page per_page ≡ page_offset page per_page
unfolding offset_or_page
no_offset x page per_page h =
    let zero_left : if_below (pos 0) (pos 0) x ≡ pos 0 = ground arith in rw zero_left refl

same_offset :
    (c : Context) (total : ℤ)
    → get_int_param c "offset" (pos 0) ≤ℤ pos 0
    → (calculate_pagination
        (get_pagination_params c).page
        (get_pagination_params c).per_page
        total).offset
      ≡ (get_pagination_params c).offset
unfolding get_pagination_params calculate_pagination
same_offset c total h =
    rw
      (
        page_again (get_int_param c "page" (pos 1)),
        size_again (get_int_param c "per_page" (pos 10)),
      )
      (sym (no_offset (get_int_param c "offset" (pos 0)) _ _ h))

-- The page that a request asks for, of a number of items.
abbrev pub asked_page : Context → ℕ → PaginationResult
asked_page c total =
    calculate_pagination (get_pagination_params c).page (get_pagination_params c).per_page
      (pos total)

-- If a request asks for a page up to 92233720368547758 and there are at most 9223372036854775707
-- items, the result for its page and page size has them, the total and the exact offset of the
-- page, says that there is a next page exactly if items are left after this one and a previous one
-- exactly if the offset is positive; and if the request names no positive offset, its own offset
-- is the same.
pub calculate_pagination-IsPaged :
    (c : Context) (total : ℕ)
    → (get_pagination_params c).page ≤ℤ pos 92233720368547758
    → total ≤ 9223372036854775707
    → IsPaged
        (get_pagination_params c).page
        (get_pagination_params c).per_page
        (pos total)
        (asked_page c total)
      × (get_int_param c "offset" (pos 0) ≤ℤ pos 0
          → (asked_page c total).offset ≡ (get_pagination_params c).offset)
calculate_pagination-IsPaged c total h l = (
  limited-IsPaged (get_pagination_params c).page (get_pagination_params c).per_page total
      (get_pagination_params-limits c) h l,
  same_offset c (pos total),
)
