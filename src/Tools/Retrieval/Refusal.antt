-- ===== src/Tools/Retrieval/Refusal.antt =====
-- Retrievals that the guard refuses, and what a try of the reader costs.
use edufurther_agent_be.Base.{◌+◌, ◌≤◌, ◌≡◌, ◌⊎◌, Bool, false, List, Text, arith}
use edufurther_agent_be.Errors.{PyError, value_error, ok, raise}
use edufurther_agent_be.Settings.{Settings}
use edufurther_agent_be.Tools.Budget.{Usage, calls_used}
use edufurther_agent_be.Tools.Budget.Limit.{reserve_call_lem}
use edufurther_agent_be.Tools.DirectFetch.{Network, validate_source_url}
use edufurther_agent_be.Tools.Retrieval.{
  Jina, direct, try_jina, fetch_page, fetch_official_page, jina_provider,
}

module _ (settings : Settings) (api : Jina) (net : Network) (period : Text)
    (approved : List Text) where
  -- A URL that the guard refuses is fetched by nobody: the guard's own refusal is raised, and the reader's
  -- budget is left alone.
  pub refused_up_front :
      (any_domain : Bool) (url : Text) (usage : Usage) (exc : PyError)
      → validate_source_url net approved any_domain url ≡ raise exc
      → fetch_official_page settings api net period approved any_domain url usage
        ≡ (raise exc, usage)
  unfolding fetch_official_page
  refused_up_front any_domain url usage exc h = ground arith

  -- A refusal during the direct fetch, such as that of a redirect's target or of an oversized body, is
  -- raised as it is: `fetch_page` does not turn to the reader, and spends nothing.
  pub refused_on_the_way :
      (url v : Text) (usage : Usage) (exc : PyError)
      → validate_source_url net approved false url ≡ ok v
      → direct settings api net period approved false v ≡ raise exc
      → exc.kind ≡ value_error
      → fetch_page settings api net period approved url usage ≡ (raise exc, usage)
  unfolding fetch_page
  refused_on_the_way url v usage exc h d k = ground arith

  -- A try of the reader costs no call or one, and one only within the provider's monthly limit.
  pub try_jina_budget :
      (url : Text) (usage : Usage)
      → let limit = settings.jina_monthly_call_limit in
        let used = calls_used jina_provider period usage in
        let used' =
          calls_used jina_provider period (try_jina settings api net period url usage).1 in
        (used' ≡ used) ⊎ ((used' ≡ used + 1) × (used' ≤ limit))
  unfolding try_jina
  try_jina_budget url usage =
      ground (arith, reserve_call_lem jina_provider period settings.jina_monthly_call_limit usage)
