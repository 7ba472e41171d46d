-- ===== src/Tools/Registry.antt =====
-- src/app/tools/registry.py: kill switches and timeouts.
use edufurther_agent_be.Base.{
  ℕ, ◌≡◌, ◌⊎◌, Bool, true, false, not, none, List, [], ◌∷◌, ◌++◌, Text, lit, text_eq, contains_text,
  keep, arith, if◌then◌else◌,
}
use edufurther_agent_be.Errors.{PyError, tool_disabled, Result, ok, raise}
use edufurther_agent_be.Settings.{Settings}

unfoldable pub direct_fetch : Text
direct_fetch = lit "direct_fetch"

unfoldable pub jina : Text
jina = lit "jina"

unfoldable pub jina_search : Text
jina_search = lit "jina_search"

unfoldable pub tavily : Text
tavily = lit "tavily"

unfoldable pub parsebot : Text
parsebot = lit "parsebot"

unfoldable pub known_tools : List Text
known_tools = direct_fetch ∷ jina ∷ jina_search ∷ tavily ∷ parsebot ∷ []

pub record ToolSpec : Type 0 where
  pub name : Text
  pub enabled : Bool
  pub timeout_seconds : ℕ

unfoldable pub unknown_disabled_tools : Settings → List Text
unknown_disabled_tools settings =
    keep (λ tool. not (contains_text tool known_tools)) settings.disabled_tools

unfoldable pub is_enabled : Settings → Text → Bool
is_enabled settings tool = not (contains_text tool settings.disabled_tools)

-- `timeouts.get(tool, settings.fetch_timeout_seconds)`
unfoldable pub timeout_of : Settings → Text → ℕ
timeout_of settings tool =
    if text_eq tool direct_fetch
    then settings.fetch_timeout_seconds
    else if text_eq tool jina
    then settings.jina_timeout_seconds
    else if text_eq tool jina_search
    then settings.jina_timeout_seconds
    else if text_eq tool tavily
    then settings.tavily_timeout_seconds
    else if text_eq tool parsebot
    then settings.parsebot_timeout_seconds
    else settings.fetch_timeout_seconds

unfoldable pub spec : Settings → Text → ToolSpec
unfolding is_enabled timeout_of
spec settings tool = record {
  name = tool;
  enabled = is_enabled settings tool;
  timeout_seconds = timeout_of settings tool;
}

unfoldable pub disabled_error : Text → PyError
disabled_error tool = record {
  kind = tool_disabled;
  type_name = lit "ToolDisabled";
  status_code = none;
  message = lit "tool '" ++ tool ++ lit "' is disabled by configuration";
}

unfoldable pub require_enabled : Settings → Text → Result ToolSpec
unfolding spec
require_enabled settings tool =
    let resolved = spec settings tool in
    if resolved.enabled then ok resolved else raise (disabled_error tool)

-- The kill switch stops exactly the tools that the configuration lists; what it lets through carries
-- its own name.
pub require_enabled_lem :
    (settings : Settings) (tool : Text)
    → ((contains_text tool settings.disabled_tools ≡ true)
        × (require_enabled settings tool ≡ raise (disabled_error tool)))
      ⊎ ((contains_text tool settings.disabled_tools ≡ false)
          × (require_enabled settings tool ≡ ok (spec settings tool)))
unfolding require_enabled
require_enabled_lem settings tool = ground arith
