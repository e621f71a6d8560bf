-- ===== src/Program/Prices.antt =====
-- Program._get_total_price_by_currency (course_discovery/apps/course_metadata/models.py). The
-- default dicts are association lists in the order of insertion.
pub mod Totals
pub mod Single
pub mod Mixed
use course_discovery_ed_uhk.Base.{
  ℕ, ◌+◌, String, Bool, true, false, ◌&&◌, ◌||◌, not, Option, none, some, List, [], ◌∷◌, ◌++◌, map,
  nat_beq, ◌==◌, string_eq, nat_eq, Eq, if◌then◌else◌,
}
use course_discovery_ed_uhk.Program.{
  CourseSeat, CourseEntitlement, Program, select_for_total_price, canonical_seats,
  canonical_course_runs, entitlements,
}

-- `d.get(key, default)` and `d[key] = value`
unfoldable pub get {ℓ} : {V : Type ℓ} → V → ℕ → List (ℕ × V) → V
get default key [] = default
get default key ((k, v) ∷ d) = if nat_beq k key then v else get default key d

unfoldable pub put {ℓ} : {V : Type ℓ} → ℕ → V → List (ℕ × V) → List (ℕ × V)
put key value [] = (key, value) ∷ []
put key value ((k, v) ∷ d) = if nat_beq k key then (k, value) ∷ d else (k, v) ∷ put key value d

-- `list.remove(x)`, where rows of one model are equal if their keys are
unfoldable pub remove {ℓ} : {A : Type ℓ} → (A → A → Bool) → A → List A → List A
remove same x [] = []
remove same x (y ∷ ys) = if same x y then ys else y ∷ remove same x ys

abbrev pub same_seat : CourseSeat → CourseSeat → Bool
same_seat a b = nat_beq a.seat.id b.seat.id

-- The loop over the selected seats: whether to add the seat, and the seats to remove.
unfoldable pub compare_seats : ℕ → CourseSeat → List CourseSeat → Bool × List CourseSeat
unfolding select_for_total_price
compare_seats now seat [] = (false, [])
compare_seats now seat (selected ∷ seats) =
    let (add_seat, seats_to_remove) = compare_seats now seat seats in
    if not (seat.seat.currency == selected.seat.currency)
    then (true, seats_to_remove)
    else if select_for_total_price now selected seat
    then (true, selected ∷ seats_to_remove)
    else (add_seat, seats_to_remove)

unfoldable pub remove_all : List CourseSeat → List CourseSeat → List CourseSeat
unfolding remove
remove_all [] seats = seats
remove_all (r ∷ removable) seats = remove_all removable (remove same_seat r seats)

-- What a seat makes of the seats selected for its course.
unfoldable pub select_seat : ℕ → CourseSeat → List CourseSeat → List CourseSeat
unfolding compare_seats remove_all
select_seat now seat [] = seat ∷ []
select_seat now seat (s ∷ selected_seats) =
    let selected = s ∷ selected_seats in
    let (add_seat, seats_to_remove) = compare_seats now seat selected in
    remove_all seats_to_remove (if add_seat then selected ++ seat ∷ [] else selected)

unfoldable pub map_seats :
    ℕ → List CourseSeat → List (ℕ × List CourseSeat) → List (ℕ × List CourseSeat)
unfolding get put select_seat
map_seats now [] course_map = course_map
map_seats now (seat ∷ seats) course_map =
    map_seats now seats
      (put seat.course (select_seat now seat (get [] seat.course course_map)) course_map)

pub data Product : Type 0 where
  of_seat : CourseSeat → Product
  of_entitlement : CourseEntitlement → Product

abbrev pub currency : Product → String
currency (of_seat s) = s.seat.currency
currency (of_entitlement e) = e.currency

abbrev pub price : Product → ℕ
price (of_seat s) = s.seat.price
price (of_entitlement e) = e.price

abbrev pub same_product : Product → Product → Bool
same_product (of_seat a) (of_seat b) = same_seat a b
same_product (of_entitlement a) (of_entitlement b) = nat_beq a.id b.id
same_product (of_seat _) (of_entitlement _) = false
same_product (of_entitlement _) (of_seat _) = false

-- The loop over a list that it removes from: the iterator goes by position, so that the element
-- after a removed one is passed over. The last argument is what the iterator has yet to see.
unfoldable pub remove_currency : String → List Product → List Product → List Product
unfolding remove
remove_currency c products [] = products
remove_currency c products (p ∷ []) =
    if c == currency p then remove same_product p products else products
remove_currency c products (p ∷ q ∷ rest) =
    let removed = remove_currency c (remove same_product p products) rest in
    let kept = remove_currency c products (q ∷ rest) in if c == currency p then removed else kept

unfoldable pub select_entitlement : CourseEntitlement → List Product → List Product
unfolding remove_currency
select_entitlement entitlement [] = of_entitlement entitlement ∷ []
select_entitlement entitlement (p ∷ products) =
    remove_currency entitlement.currency (p ∷ products) (p ∷ products)
    ++ of_entitlement entitlement ∷ []

unfoldable pub map_entitlements :
    List CourseEntitlement → List (ℕ × List Product) → List (ℕ × List Product)
unfolding get put select_entitlement
map_entitlements [] course_map = course_map
map_entitlements (e ∷ es) course_map =
    map_entitlements es
      (put e.course (select_entitlement e (get [] e.course course_map)) course_map)

abbrev pub products_of : List (ℕ × List CourseSeat) → List (ℕ × List Product)
products_of course_map = map (λ entry. (entry.0, map of_seat entry.1)) course_map

unfoldable pub course_products :
    ℕ → List CourseSeat → List CourseEntitlement → List (ℕ × List Product)
unfolding map_seats map_entitlements
course_products now seats es = map_entitlements es (products_of (map_seats now seats []))

-- `currencies_with_total`
unfoldable pub get_total : String → List (String × ℕ) → ℕ
get_total c [] = 0
get_total c ((k, total) ∷ totals) = if k == c then total else get_total c totals

unfoldable pub put_total : String → ℕ → List (String × ℕ) → List (String × ℕ)
put_total c value [] = (c, value) ∷ []
put_total c value ((k, total) ∷ totals) =
    if k == c then (k, value) ∷ totals else (k, total) ∷ put_total c value totals

unfoldable pub add_products : List Product → List (String × ℕ) → List (String × ℕ)
unfolding get_total put_total
add_products [] totals = totals
add_products (p ∷ products) totals =
    add_products products (put_total (currency p) (get_total (currency p) totals + price p) totals)

unfoldable pub add_courses : List (ℕ × List Product) → List (String × ℕ) → List (String × ℕ)
unfolding add_products
add_courses [] totals = totals
add_courses ((_, products) ∷ courses) totals = add_courses courses (add_products products totals)

unfoldable pub get_total_price_by_currency : ℕ → Program → List (String × ℕ)
unfolding course_products add_courses canonical_seats canonical_course_runs entitlements
get_total_price_by_currency now program =
    let seats =
      canonical_seats program.applicable_seat_types
        (canonical_course_runs program.excluded_course_runs program.courses) in
    add_courses (course_products now seats (entitlements program program.courses)) []
