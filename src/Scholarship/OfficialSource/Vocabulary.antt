-- ===== src/Scholarship/OfficialSource/Vocabulary.antt =====
-- The word lists of src/app/usecases/scholarship_finder/official_source.py.
use edufurther_agent_be.Base.{List, [], ◌∷◌, Text, lit}

unfoldable pub non_distinctive_labels : List Text
non_distinctive_labels =
    lit "www"
    ∷ lit "www1"
    ∷ lit "www2"
    ∷ lit "www3"
    ∷ lit "web"
    ∷ lit "ac"
    ∷ lit "edu"
    ∷ lit "gov"
    ∷ lit "co"
    ∷ lit "com"
    ∷ lit "org"
    ∷ lit "net"
    ∷ lit "int"
    ∷ []

unfoldable pub generic_title_words : List Text
generic_title_words =
    lit "scholarship"
    ∷ lit "scholarships"
    ∷ lit "scholar"
    ∷ lit "scholars"
    ∷ lit "fellowship"
    ∷ lit "fellowships"
    ∷ lit "bursary"
    ∷ lit "bursaries"
    ∷ lit "grant"
    ∷ lit "grants"
    ∷ lit "award"
    ∷ lit "awards"
    ∷ lit "prize"
    ∷ lit "prizes"
    ∷ lit "funding"
    ∷ lit "funded"
    ∷ lit "fully"
    ∷ lit "full"
    ∷ lit "free"
    ∷ lit "study"
    ∷ lit "studies"
    ∷ lit "student"
    ∷ lit "students"
    ∷ lit "international"
    ∷ lit "global"
    ∷ lit "abroad"
    ∷ lit "overseas"
    ∷ lit "foreign"
    ∷ lit "university"
    ∷ lit "universities"
    ∷ lit "college"
    ∷ lit "school"
    ∷ lit "institute"
    ∷ lit "academy"
    ∷ lit "faculty"
    ∷ lit "master"
    ∷ lit "masters"
    ∷ lit "bachelor"
    ∷ lit "bachelors"
    ∷ lit "doctoral"
    ∷ lit "doctorate"
    ∷ lit "phd"
    ∷ lit "mba"
    ∷ lit "msc"
    ∷ lit "undergraduate"
    ∷ lit "postgraduate"
    ∷ lit "graduate"
    ∷ lit "program"
    ∷ lit "programme"
    ∷ lit "programs"
    ∷ lit "programmes"
    ∷ lit "course"
    ∷ lit "courses"
    ∷ lit "degree"
    ∷ lit "degrees"
    ∷ lit "apply"
    ∷ lit "application"
    ∷ lit "applications"
    ∷ lit "deadline"
    ∷ lit "deadlines"
    ∷ lit "online"
    ∷ lit "list"
    ∷ lit "best"
    ∷ lit "top"
    ∷ lit "latest"
    ∷ lit "opportunity"
    ∷ lit "opportunities"
    ∷ []

unfoldable pub public_body_labels : List Text
public_body_labels =
    lit "gov"
    ∷ lit "edu"
    ∷ lit "ac"
    ∷ lit "gc"
    ∷ lit "go"
    ∷ lit "mil"
    ∷ lit "int"
    ∷ lit "admin"
    ∷ []

unfoldable pub public_body_tlds : List Text
public_body_tlds = lit "edu" ∷ lit "gov" ∷ lit "int" ∷ lit "mil" ∷ []
