-- ===== src/Examples/People.antt =====
-- An example for the deletion of a duplicate.
use course_discovery_ed_uhk.Base.{ℕ, String, true, some, [], ◌∷◌}
use course_discovery_ed_uhk.People.{Person, Site}
use course_discovery_ed_uhk.People.Duplicates.{Database, PersonInfo}

abbrev person : ℕ → String → Person
person id uuid = record {
  id = id;
  partner = "edx";
  uuid = uuid;
  slug = uuid;
  full_name = uuid;
  published = true;
}

abbrev site : Site
site = record {
  has_credentials = true;
  nodes = λ uuid. some ("9" ∷ []);
  creates = true;
  updates = true;
}

-- 1 is the duplicate of 2.
abbrev db : Database
db = record {
  people = person 1 "a" ∷ person 2 "b" ∷ person 3 "c" ∷ [];
  endorsements = record { id = 1; endorser = 1 } ∷ record { id = 2; endorser = 2 } ∷ [];
  programs = record { id = 1; people = 3 ∷ 1 ∷ [] } ∷ [];
  course_runs =
      record { id = 1; people = 1 ∷ 2 ∷ [] } ∷ record { id = 2; people = 1 ∷ 3 ∷ [] } ∷ [];
}

abbrev info : PersonInfo
info = record { person = person 1 "a"; target = person 2 "b" }
