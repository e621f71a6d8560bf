-- ===== src/Examples/Programs.antt =====
-- Examples for the prices of a program, the search through curricula, and the course editors.
use mathlib.Core.List.{Memᴰ}
use course_discovery_ed_uhk.Base.{
  ℕ, String, ◌-◌, ◌≤◌, ◌<◌, ◌≡◌, refl, true, false, none, some, List, [], ◌∷◌, arith, ap, sym, ◌∙◌,
  All, keep, if◌then◌else◌,
}
use course_discovery_ed_uhk.Run.{verified}
use course_discovery_ed_uhk.Program.{
  CourseSeat, select_for_total_price, Program, entitlements, CourseEntitlement,
}
use course_discovery_ed_uhk.Program.Prices.{Product, select_seat, course_products}
use course_discovery_ed_uhk.Program.Prices.Totals.{program_seats}
use course_discovery_ed_uhk.Program.Prices.Mixed.{select_seat_doubles}
use course_discovery_ed_uhk.Signals.{
  Curriculum, mem, find_in_programs, saved, check_curriculum_program_membership_for_cycles,
}
use course_discovery_ed_uhk.Signals.Reach.{Edge, Reach, here, through}
use course_discovery_ed_uhk.Signals.Acyclic.{HasCycle, add_membership, membership_saved-HasCycle}
use course_discovery_ed_uhk.Editors.{User, Course, editable_courses, is_course_editable}
use course_discovery_ed_uhk.Editors.Editable.{editable_courses-keep, editable_courses-mem}
use course_discovery_ed_uhk.Examples.Data.{now, at_day, open_run, verified_seat}

abbrev entitlement : CourseEntitlement
entitlement = record { id = 1; course = 2; mode = verified; price = 9900; currency = "USD" }

-- A course with a canonical run and one with an entitlement.
abbrev program : Program
program = record {
  one_click_purchase_enabled = true;
  applicable_seat_types = verified ∷ [];
  excluded_course_runs = [];
  courses =
      record {
        canonical_course_run = some (record { course = 1; run = open_run });
        course_runs = open_run ∷ [];
        entitlements = [];
      }
      ∷ record { canonical_course_run = none; course_runs = []; entitlements = entitlement ∷ [] }
      ∷ [];
}

abbrev products : List (ℕ × List Product)
products = course_products now (program_seats program) (entitlements program program.courses)

-- Three seats of one run that enrolls from day 95 on, in dollars, in euros, and in dollars again.
abbrev seat_in : ℕ → String → CourseSeat
seat_in id currency = record {
  course = 1;
  run = record open_run { enrollment_start = some (at_day 95) };
  seat = record verified_seat { id = id; currency = currency };
}

not_preferred :
    All
      (λ s. select_for_total_price now s (seat_in 3 "USD") ≡ false)
      (seat_in 1 "USD" ∷ seat_in 2 "EUR" ∷ [])
unfolding select_for_total_price
not_preferred = (refl, (refl, tt))

select_seat_doubles_example :
    select_seat now (seat_in 3 "USD") (seat_in 1 "USD" ∷ seat_in 2 "EUR" ∷ [])
    ≡ seat_in 1 "USD" ∷ seat_in 2 "EUR" ∷ seat_in 3 "USD" ∷ []
select_seat_doubles_example =
    select_seat_doubles now (seat_in 3 "USD") (seat_in 1 "USD" ∷ seat_in 2 "EUR" ∷ []) refl
      not_preferred

-- Program 10 holds 11, which holds 12.
abbrev table : List Curriculum
table =
    record { id = 1; program = some 10; program_curriculum = 11 ∷ [] }
    ∷ record { id = 2; program = some 11; program_curriculum = 12 ∷ [] }
    ∷ []

abbrev rank : ℕ → ℕ
rank p = 12 - p

found : find_in_programs 5 table (some 2) none (10 ∷ []) ≡ some true
unfolding find_in_programs
found = refl

abbrev users : List User
users =
    record { id = 1; is_staff = false; user_organizations = 7 ∷ [] }
    ∷ record { id = 2; is_staff = false; user_organizations = 8 ∷ [] }
    ∷ []

abbrev editor : User
editor = record { id = 1; is_staff = false; user_organizations = 7 ∷ [] }

abbrev courses : List Course
courses =
    record { id = 5; authoring_organizations = 7 ∷ []; editors = editor ∷ [] }
    ∷ record { id = 6; authoring_organizations = 8 ∷ []; editors = [] }
    ∷ []

editable_courses-keep_example :
    editable_courses editor courses true
    ≡ (if false then courses else keep (is_course_editable users editor) courses)
editable_courses-keep_example =
    editable_courses-keep users editor courses refl ((λ _. refl), ((λ e. cc e), tt))
      (((7, refl), ((λ _. refl), tt)), (((8, refl), tt), tt))

editable_courses-mem_example :
    Memᴰ
      (record { id = 5; authoring_organizations = 7 ∷ []; editors = editor ∷ [] })
      (editable_courses editor courses true)
unfolding is_course_editable
editable_courses-mem_example =
    editable_courses-mem users editor courses
      (record { id = 5; authoring_organizations = 7 ∷ []; editors = editor ∷ [] }) refl
      ((λ _. refl), ((λ e. cc e), tt)) ((λ _. refl), tt) (Memᴰ.head refl) refl

-- A course of two organizations that has an editor of one of them.
abbrev of_two : Course
of_two = record {
  id = 9;
  authoring_organizations = 8 ∷ 7 ∷ [];
  editors = record { id = 2; is_staff = false; user_organizations = 8 ∷ [] } ∷ [];
}

of_two_listed : editable_courses editor (of_two ∷ []) true ≡ of_two ∷ []
unfolding editable_courses
of_two_listed = refl

of_two_refused : is_course_editable users editor of_two ≡ false
unfolding is_course_editable
of_two_refused = refl

-- The edges of the table only go up.
listed_up :
    (p q : ℕ) (c : Curriculum)
    → Memᴰ c table
    → c.program ≡ some p
    → mem q c.program_curriculum ≡ true
    → p < q
listed_up p q c (Memᴰ.head e) o h =
    let o' = ap (λ d. d.program) (sym e) ∙ o in
    let h' = ap (λ d. mem q d.program_curriculum) (sym e) ∙ h in ground (arith, o', h')
listed_up p q c (Memᴰ.tail (Memᴰ.head e)) o h =
    let o' = ap (λ d. d.program) (sym e) ∙ o in
    let h' = ap (λ d. mem q d.program_curriculum) (sym e) ∙ h in ground (arith, o', h')
listed_up p q c (Memᴰ.tail (Memᴰ.tail i)) o h = elim i [ ]

Edge-up : {p q : ℕ} → Edge table p q → p < q
Edge-up {p} {q} e = listed_up p q e.curriculum e.listed e.owner e.holds

Reach-up : {p q : ℕ} → Reach table p q → p ≤ q
Reach-up here = omega arith
Reach-up (through e r) = omega (arith, Edge-up e, Reach-up r)

table_acyclic : ¬ HasCycle table
table_acyclic (p, (q, (e, r))) = omega (arith, Edge-up e, Reach-up r)

accepted : check_curriculum_program_membership_for_cycles 5 table 1 12 ≡ saved
unfolding check_curriculum_program_membership_for_cycles
accepted = refl

membership_saved-HasCycle_example : ¬ HasCycle (add_membership 1 12 table)
membership_saved-HasCycle_example = membership_saved-HasCycle 5 table 1 12 table_acyclic accepted
