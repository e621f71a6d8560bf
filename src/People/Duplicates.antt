-- ===== src/People/Duplicates.antt =====
-- delete_person_dups (course_discovery/apps/course_metadata/management/commands/delete_person_dups.py). A
-- person is known by the key of the row. An argument is given by its parts at `:`. The rows that only
-- hang on a person go with it. The database refuses references to rows that are gone.
use course_discovery_ed_uhk.Base.{
  ℕ, String, Bool, true, false, ◌&&◌, not, Option, none, some, List, [], ◌∷◌, map, nat_beq, ◌==◌,
  string_eq, any, all, keep, first, is_empty, if◌then◌else◌,
}
use course_discovery_ed_uhk.People.{
  Person, Site, site_api_client, person_to_marketing, Call, returned, raised, delete_person_by_uuid,
}

pub record Endorsement : Type 0 where
  pub id : ℕ
  pub endorser : ℕ

-- The instructors of a program, or the staff of a course run, drafts among them.
pub record Ordering : Type 0 where
  pub id : ℕ
  pub people : List ℕ

pub record Database : Type 0 where
  pub people : List Person
  pub endorsements : List Endorsement
  pub programs : List Ordering
  pub course_runs : List Ordering

pub data Error : Type 0 where
  malformed equal_uuids does_not_exist no_partner_code no_people integrity site_error : Error

pub record PersonInfo : Type 0 where
  pub person : Person
  pub target : Person

pub data Parsed (A : Type 0) : Type 0 where
  parsed : A → Parsed A
  refused : Error → Parsed A

abbrev pub find_person : Database → (partner uuid : String) → Option Person
find_person db partner uuid =
    first (keep (λ p. (p.partner == partner) && (p.uuid == uuid)) db.people)

-- `PersonInfo(partner, uuid, target_uuid)`
unfoldable pub person_info : Database → (partner uuid target_uuid : String) → Parsed PersonInfo
person_info db partner uuid target_uuid = elim (find_person db partner uuid) [
  | none ↦ refused does_not_exist
  | some person ↦ elim (find_person db partner target_uuid) [
    | none ↦ refused does_not_exist
    | some target ↦ parsed (record { person = person; target = target })
  ]
]

unfoldable pub parse_person :
    Database → (partner : String) → (person_parts : List String) → Parsed PersonInfo
unfolding person_info
parse_person db partner (uuid ∷ target_uuid ∷ []) =
    if uuid == target_uuid then refused equal_uuids else person_info db partner uuid target_uuid
parse_person db partner [] = refused malformed
parse_person db partner (_ ∷ []) = refused malformed
parse_person db partner (_ ∷ _ ∷ _ ∷ _) = refused malformed

abbrev pub contains : ℕ → List ℕ → Bool
contains key keys = any (λ k. nat_beq k key) keys

unfoldable pub filter_person : (person target : ℕ) → ℕ → ℕ
filter_person person target p = if nat_beq p person then target else p

-- The new list where the person is in it and the target is not.
unfoldable pub update_ordering : (person target : ℕ) → List ℕ → List ℕ
unfolding filter_person
update_ordering person target people =
    if contains person people && not (contains target people)
    then map (filter_person person target) people
    else people

abbrev pub without : ℕ → List ℕ → List ℕ
without person people = keep (λ p. not (nat_beq p person)) people

unfoldable pub merge_ordering : (person target : ℕ) → Ordering → Ordering
unfolding update_ordering
merge_ordering person target o = record o {
  people = without person (update_ordering person target o.people);
}

abbrev pub merge_endorsement : (person target : ℕ) → Endorsement → Endorsement
merge_endorsement person target e = record e {
  endorser = if nat_beq e.endorser person then target else e.endorser;
}

-- What is moved to the target, and the deletion of the row with what hangs on it.
unfoldable pub merge_person : (person target : ℕ) → Database → Database
unfolding merge_ordering
merge_person person target db = record {
  people = keep (λ p. not (nat_beq p.id person)) db.people;
  endorsements =
      keep (λ e. not (nat_beq e.endorser person))
        (map (merge_endorsement person target) db.endorsements);
  programs = map (merge_ordering person target) db.programs;
  course_runs = map (merge_ordering person target) db.course_runs;
}

abbrev pub is_person : Database → ℕ → Bool
is_person db key = any (λ p. nat_beq p.id key) db.people

-- The foreign keys that the database checks.
unfoldable pub is_consistent : Database → Bool
is_consistent db =
    all (λ e. is_person db e.endorser) db.endorsements
    && (all (λ o. all (is_person db) o.people) db.programs
        && all (λ o. all (is_person db) o.people) db.course_runs)

pub data Result : Type 0 where
  done : Database → Result
  failed : Error → Database → Result

unfoldable pub commit_merge : Database → Database → Result
unfolding is_consistent
commit_merge old new = if is_consistent new then done new else failed integrity old

-- A marketing site that is not configured is passed over.
unfoldable pub after_site : Call Bool → (old new : Database) → Result
unfolding commit_merge
after_site (returned found sent) old new = commit_merge old new
after_site (raised site_api_client sent) old new = commit_merge old new
after_site (raised person_to_marketing sent) old new = failed site_error old

-- One transaction: an exception leaves the database as it was.
unfoldable pub delete_person : Site → (commit : Bool) → PersonInfo → Database → Result
unfolding delete_person_by_uuid merge_person after_site
delete_person site false info db = done db
delete_person site true info db =
    after_site (delete_person_by_uuid site info.person.uuid) db
      (merge_person info.person.id info.target.id db)

unfoldable pub parse_people : Database → String → List (List String) → Parsed (List PersonInfo)
unfolding parse_person
parse_people db partner [] = parsed []
parse_people db partner (p ∷ ps) =
    let rest = parse_people db partner ps in
    elim (parse_person db partner p) [
      | refused e ↦ refused e
      | parsed info ↦ elim rest [ refused e ↦ refused e | parsed infos ↦ parsed (info ∷ infos) ]
    ]

unfoldable pub delete_people : Site → (commit : Bool) → List PersonInfo → Database → Result
unfolding delete_person
delete_people site commit [] db = done db
delete_people site commit (info ∷ infos) db = elim (delete_person site commit info db) [
  | done db' ↦ delete_people site commit infos db'
  | failed e db' ↦ failed e db'
]

-- `options['partner_code']` is the partner, who is there.
unfoldable pub delete_person_dups :
    Site
    → (partner_code : Option String) → (people : List (List String)) → (commit : Bool) → Database
    → Result
unfolding parse_people delete_people
delete_person_dups site none people commit db = failed no_partner_code db
delete_person_dups site (some partner) people commit db =
    if is_empty people then failed no_people db else elim (parse_people db partner people) [
      | refused e ↦ failed e db
      | parsed infos ↦ delete_people site commit infos db
    ]
