-- ===== src/Program/Prices/Single.antt =====
-- The products that count for the courses of a program with one currency.
use course_discovery_ed_uhk.Base.{ℕ, ◌+◌, String, ◌≡◌, List, [], ◌∷◌}
use course_discovery_ed_uhk.Program.{Program, CourseSeat}
use course_discovery_ed_uhk.Program.Prices.{Product, currency, price}

-- One product for the course, of the currency `c`, and of this course.
abbrev pub IsSingle : String → List Product → Type 0
IsSingle c [] = ⊥
IsSingle c (p ∷ []) = currency p ≡ c
IsSingle c (_ ∷ _ ∷ _) = ⊥

abbrev pub IsSingleSeat : String → List CourseSeat → Type 0
IsSingleSeat c [] = ⊥
IsSingleSeat c (s ∷ []) = s.seat.currency ≡ c
IsSingleSeat c (_ ∷ _ ∷ _) = ⊥

-- The prices of all products.
abbrev pub sum_prices : List (ℕ × List Product) → ℕ
sum_prices [] = 0
sum_prices ((_, []) ∷ m) = sum_prices m
sum_prices ((_, p ∷ _) ∷ m) = price p + sum_prices m
