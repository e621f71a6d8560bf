-- ===== src/Examples/Courses.antt =====
-- Examples for the advertised run, for unpublishing, and for the url slugs of a course.
use mathlib.Core.List.{Memᴰ}
use course_discovery_ed_uhk.Base.{
  String, ◌≡◌, refl, Bool, true, false, none, some, List, [], ◌∷◌, arith, All, ap, is_some, sorted,
  sorted_reverse,
}
use course_discovery_ed_uhk.Run.{CourseRun}
use course_discovery_ed_uhk.Run.Market.{is_marketable}
use course_discovery_ed_uhk.Run.Dates.{enrollment_deadline}
use course_discovery_ed_uhk.Run.Seats.{is_current_and_still_upgradeable, enrollable_paid_seats}
use course_discovery_ed_uhk.Course.Advertised.{ok, type_error, advertised_course_run}
use course_discovery_ed_uhk.Course.Advertised.Choice.{
  IsChoice, rank, advertised_course_run-IsChoice,
}
use course_discovery_ed_uhk.Course.Advertised.Starts.{
  advertised_course_run_total, advertised_course_run_raises,
}
use course_discovery_ed_uhk.Course.Unpublish.{Row}
use course_discovery_ed_uhk.Course.Slugs.{
  UrlSlug, active_url_slug, active, set_on_draft, set_on_official,
}
use course_discovery_ed_uhk.Course.Slugs.Active.{set_on_draft-active}
use course_discovery_ed_uhk.Course.Slugs.Official.{set_on_official-active}
use course_discovery_ed_uhk.Examples.Data.{now, open_run, ended_run, undated_run, draft_run}

abbrev runs : List CourseRun
runs = ended_run ∷ open_run ∷ []

runs_choice : advertised_course_run now runs ≡ ok (some open_run)
unfolding advertised_course_run is_marketable is_current_and_still_upgradeable sorted sorted_reverse
    enrollable_paid_seats enrollment_deadline
runs_choice = refl

advertised_course_run-IsChoice_example : IsChoice now runs open_run
advertised_course_run-IsChoice_example =
    advertised_course_run-IsChoice now runs open_run runs_choice

all_start : (q : CourseRun) → Memᴰ q runs → is_marketable q ≡ true → is_some q.start ≡ true
all_start q (Memᴰ.head e) m = rw e
all_start q (Memᴰ.tail (Memᴰ.head e)) m = rw e
all_start q (Memᴰ.tail (Memᴰ.tail i)) m = elim i [ ]

open_marketable : is_marketable open_run ≡ true
unfolding is_marketable
open_marketable = refl

advertised_course_run_total_example :
    (best : CourseRun) × (advertised_course_run now runs ≡ ok (some best))
advertised_course_run_total_example =
    advertised_course_run_total now runs open_run (Memᴰ.tail (Memᴰ.head refl)) open_marketable
      all_start

undated_marketable :
    (is_marketable undated_run ≡ true) × (rank now undated_run ≡ 0) × (rank now open_run ≡ 0)
unfolding is_marketable rank is_current_and_still_upgradeable sorted_reverse enrollable_paid_seats
    enrollment_deadline
undated_marketable = (refl, refl, refl)

advertised_course_run_raises_example :
    advertised_course_run now (undated_run ∷ open_run ∷ []) ≡ type_error
advertised_course_run_raises_example =
    advertised_course_run_raises now (undated_run ∷ open_run ∷ []) undated_run open_run
      (λ e. cc (ap (λ r. r.start) e)) (Memᴰ.head refl) (Memᴰ.tail (Memᴰ.head refl))
      undated_marketable.0 open_marketable undated_marketable.1 undated_marketable.2 refl

abbrev rows : List Row
rows =
    record { run = open_run; draft_version = some draft_run }
    ∷ record { run = ended_run; draft_version = none }
    ∷ []

abbrev entry : String → Bool → Bool → UrlSlug
entry slug is_active is_active_on_draft = record {
  url_slug = slug;
  is_active = is_active;
  is_active_on_draft = is_active_on_draft;
}

-- The draft goes back to a slug that the official course had before.
abbrev official_slugs : List UrlSlug
official_slugs = entry "demo" false false ∷ entry "demo-2" true true ∷ []

set_on_draft-active_example :
    active_url_slug true [] (some (entry "demo" false true ∷ entry "demo-2" true false ∷ []))
    ≡ some "demo"
set_on_draft-active_example =
    set_on_draft-active false "demo" (entry "demo-3" true false ∷ []) [] (some official_slugs)
      (some (entry "demo" false true ∷ entry "demo-2" true false ∷ [])) (omega arith)
      (unfold set_on_draft in refl)

set_on_official-active_example :
    (active_url_slug false (entry "demo" true true ∷ entry "demo-2" false false ∷ []) (some [])
      ≡ some "demo")
    × All
        (λ e. active e ≡ true → e.url_slug ≡ "demo")
        (entry "demo" true true ∷ entry "demo-2" false false ∷ [])
    × ((draft : List UrlSlug)
        → some [] ≡ some draft
        → active_url_slug true draft
            (some (entry "demo" true true ∷ entry "demo-2" false false ∷ []))
          ≡ some "demo")
set_on_official-active_example =
    set_on_official-active false "demo" official_slugs
      (entry "demo" true true ∷ entry "demo-2" false false ∷ [])
      (some (entry "demo" true false ∷ [])) (some []) (unfold set_on_official in refl)
