-- ===== src/Scholarship/Prompts.antt =====
-- src/app/usecases/scholarship_finder/prompts.py: what each model task is sent, cut to its size.
use edufurther_agent_be.Base.{
  ℕ, ◌≤◌, true, ◌&&◌, Option, [], ◌∷◌, ◌++◌, Text, lit, length, take, is_empty, is_space, not, ◌==◌,
  leb, get_or, if◌then◌else◌, arith, length-take,
}
use edufurther_agent_be.Json.{Json, bool, str, arr, obj, Fields, end, field}
use edufurther_agent_be.Python.Regex.{
  Pattern, ◌then_◌, ◌or_◌, many, some_of, literal, small_literal, word_end, anywhere, sub,
}
use edufurther_agent_be.Integrations.Product.{optional}
use edufurther_agent_be.Scholarship.Schemas.{Facts}
use edufurther_agent_be.Scholarship.Payloads.{items_of}

unfoldable pub classify_page_chars : ℕ
classify_page_chars = 40000

unfoldable pub split_page_chars : ℕ
split_page_chars = 200000

unfoldable pub extract_page_chars : ℕ
extract_page_chars = 40000

unfoldable pub compare_page_chars : ℕ
compare_page_chars = 60000

unfoldable pub head : Text → ℕ → Text
head text limit = if leb (length text) limit then text else take limit text

-- `.*?` with a pattern behind it, the shortest way first
unfoldable pub until : Pattern → Pattern
until p [] = p []
until p (x ∷ xs) = p (x ∷ xs) ++ until p xs

-- An element of this name with its content: `<name\b[^>]*>.*?</name>`
unfoldable pub element : Text → Pattern
unfolding until
element name =
    literal (lit "<")
    then_ small_literal name
    then_ word_end
    then_ many (λ c. not (c == b'>'))
    then_ literal (lit ">")
    then_ until (literal (lit "</") then_ small_literal name then_ literal (lit ">"))

unfoldable pub boilerplate : Pattern
unfolding element
boilerplate =
    element (lit "script")
    or_ element (lit "style")
    or_ element (lit "noscript")
    or_ element (lit "svg")
    or_ element (lit "template")
    or_ element (lit "iframe")

unfoldable pub comment : Pattern
unfolding until
comment = literal (lit "<!--") then_ until (literal (lit "-->"))

-- `[^\S\n]+`
unfoldable pub blanks : Pattern
blanks = some_of (λ c. is_space c && not (c == 10))

unfoldable pub readable : Text → ℕ → Text
unfolding head
readable text limit =
    let without_elements = sub (anywhere boilerplate) (lit " ") text in
    let without_comments = sub (anywhere comment) (lit " ") without_elements in
    head (sub (anywhere blanks) (lit " ") without_comments) limit

abbrev or_empty : Option Text → Json
or_empty s = str (get_or s [])

unfoldable pub classify_source_data : Option Text → Option Text → Text → Fields
classify_source_data title excerpt page_text = field (lit "title") (or_empty title) (
    field (lit "excerpt") (or_empty excerpt)
      (field (lit "page_text") (str (readable page_text classify_page_chars)) end))

unfoldable pub split_source_data : Text → Option Text → Text → Fields
split_source_data source_url title page_text = field (lit "source_url") (str source_url) (
    field (lit "title") (or_empty title)
      (field (lit "page_text") (str (readable page_text split_page_chars)) end))

-- The page's text is sent only where there is one.
unfoldable pub page_field : Text → Fields
page_field page_text =
    if is_empty page_text
    then end
    else field (lit "page_text") (str (readable page_text extract_page_chars)) end

unfoldable pub extract_source_data : Text → Option Text → Option Text → Fields
unfolding page_field
extract_source_data title excerpt page_text =
    field (lit "title") (str title)
      (field (lit "excerpt") (or_empty excerpt) (page_field (get_or page_text [])))

-- `deterministic_facts` as it is sent.
unfoldable pub facts_json : Facts → Json
facts_json facts = obj (
    field (lit "extraction_version") (str (lit "extract-v1")) (
      field (lit "needs_human_review") (bool true) (
        field (lit "funding_mentions") (arr (items_of str facts.funding_mentions)) (
          field (lit "deadline_mentions") (arr (items_of str facts.deadline_mentions)) (
            field (lit "level_mentions") (arr (items_of str facts.level_mentions))
              (field (lit "eligibility_phrase") (optional facts.eligibility_phrase) end))))))

unfoldable pub compare_source_data : Text → Facts → Text → Text → Fields
unfolding facts_json
compare_source_data title reported_facts official_url official_text =
    field (lit "title") (str title) (
      field (lit "reported_facts") (facts_json reported_facts) (
        field (lit "official_url") (str official_url)
          (field (lit "official_page_text") (str (readable official_text compare_page_chars)) end)))

unfoldable pub eligibility_source_data : Text → Text → Text → Fields
eligibility_source_data title source_url page_text = field (lit "title") (str title) (
    field (lit "source_url") (str source_url)
      (field (lit "page_text") (str (readable page_text extract_page_chars)) end))

length-head : (text : Text) (limit : ℕ) → length (head text limit) ≤ limit
unfolding head
length-head text limit = ground (arith, length-take limit text)

-- What a task is sent of a page has at most the task's number of characters.
pub length-readable : (text : Text) (limit : ℕ) → length (readable text limit) ≤ limit
unfolding readable
length-readable text limit = length-head _ limit
