-- ===== src/Program/Prices/Totals.antt =====
-- What the total price by currency is made of.
use course_discovery_ed_uhk.Base.{
  ◌⊎◌, sym, ◌∙◌, ℕ, ◌+◌, String, ◌≡◌, refl, true, false, List, [], ◌∷◌, arith, ◌==◌, string_eq,
  if◌then◌else◌, Bool-cases, inl, inr,
}
use course_discovery_ed_uhk.Program.{
  Program, canonical_seats, canonical_course_runs, entitlements, CourseSeat,
}
use course_discovery_ed_uhk.Program.Prices.{
  Product, currency, price, course_products, get_total_price_by_currency, get_total, put_total,
  add_products, add_courses,
}

abbrev pub program_seats : Program → List CourseSeat
program_seats program =
    canonical_seats program.applicable_seat_types
      (canonical_course_runs program.excluded_course_runs program.courses)

-- The prices of the products in one currency, of one course and of all courses.
unfoldable pub sum_products : String → List Product → ℕ
sum_products c [] = 0
sum_products c (p ∷ products) = (if currency p == c then price p else 0) + sum_products c products

unfoldable pub sum_courses : String → List (ℕ × List Product) → ℕ
unfolding sum_products
sum_courses c [] = 0
sum_courses c ((_, products) ∷ courses) = sum_products c products + sum_courses c courses

String-cases : (a b : String) → ((a == b) ≡ true) × (a ≡ b) ⊎ ((a == b) ≡ false)
String-cases a b = elim (Bool-cases (a == b)) [
  | inl e ↦ inl (e, (string_eq.equals_iff a b).0 e)
  | inr e ↦ inr e
]

differs : (k k' c : String) → (k' == k) ≡ false → k' ≡ c → (k == c) ≡ false
differs k k' c e q = elim (String-cases k c) [
  | inl (_, r) ↦ cc (e, (string_eq.equals_iff k' k).1 (q ∙ sym r))
  | inr f ↦ f
]

get-put_total :
    (c k : String) (value : ℕ) (totals : List (String × ℕ))
    → get_total c (put_total k value totals) ≡ (if k == c then value else get_total c totals)
unfolding get_total put_total
get-put_total c k value [] = refl
get-put_total c k value ((k', t) ∷ totals) = elim (String-cases k' k) [
  | inl (e, q) ↦ rw e (rw q (elim (Bool-cases (k == c)) [ inl f ↦ rw f refl | inr f ↦ rw f refl ]))
  | inr e ↦ rw e (elim (String-cases k' c) [
    | inl (f, q) ↦ rw f (rw (differs k k' c e q) refl)
    | inr f ↦ rw f (get-put_total c k value totals)
  ])
]

get_total-add_products :
    (c : String) (products : List Product) (totals : List (String × ℕ))
    → get_total c (add_products products totals) ≡ get_total c totals + sum_products c products
unfolding add_products sum_products
get_total-add_products c [] totals = ground arith
get_total-add_products c (p ∷ products) totals =
    let v = get_total (currency p) totals + price p in
    rw
      (
        get_total-add_products c products (put_total (currency p) v totals),
        get-put_total c (currency p) v totals,
      )
      (elim (String-cases (currency p) c) [
        | inl (e, q) ↦ rw (e, q) (omega arith)
        | inr e ↦ rw e (omega arith)
      ])

-- The total in a currency is what it was, and the sum of the prices in it.
pub get_total-add_courses :
    (c : String) (courses : List (ℕ × List Product)) (totals : List (String × ℕ))
    → get_total c (add_courses courses totals) ≡ get_total c totals + sum_courses c courses
unfolding add_courses sum_courses
get_total-add_courses c [] totals = ground arith
get_total-add_courses c ((_, products) ∷ courses) totals = ground (
  arith,
  get_total-add_courses c courses (add_products products totals),
  get_total-add_products c products totals,
)

-- The total in a currency is the sum of the prices in it of the products that count for the
-- courses.
pub get_total_price_by_currency-sum :
    (c : String) (now : ℕ) (program : Program)
    → get_total c (get_total_price_by_currency now program)
      ≡ sum_courses c
          (course_products now (program_seats program) (entitlements program program.courses))
unfolding get_total_price_by_currency get_total
get_total_price_by_currency-sum c now program =
    rw
      (get_total-add_courses c
        (course_products now (program_seats program) (entitlements program program.courses)) [])
      (omega arith)
