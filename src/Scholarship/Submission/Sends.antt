-- ===== src/Scholarship/Submission/Sends.antt =====
-- What holds of the calls that a session makes: what one `try` logs, and how this goes through a chain.
use edufurther_agent_be.Base.{◌≡◌, refl, sym, ap, ◌∙◌, List, [], ◌∷◌, ◌++◌, Text, All, arith}
use mathlib.Core.List.{append_assoc, append-nil}
use edufurther_agent_be.Errors.{Result, ok, raise}
use edufurther_agent_be.Json.{Fields}
use edufurther_agent_be.Integrations.Product.{ProductHttp, Client, Call, post_call}
use edufurther_agent_be.Scholarship.Workflow.{State}
use edufurther_agent_be.Scholarship.Submission.{
  Session, Send, continue, ◌>>=◌, pure, tell, catch_finder, attempt,
}

-- Where nothing is raised, exactly these calls were made.
pub record Logs {A : Type 0} (m : Send A) (sent : List Call) : Type 0 where
  pub logged : (s : Session) (a : A) → (m s).0 ≡ ok a → (m s).1.calls ≡ s.calls ++ sent

-- Whether or not something is raised, each call made is of this kind.
pub record Keeps {A : Type 0} (P : Call → Type 0) (m : Send A) : Type 0 where
  pub kept : (s : Session) → All P s.calls → All P (m s).1.calls

pub continue_ok :
    {A B : Type 0} (t : Result A × Session) (k : A → Send B) (b : B)
    → (continue k t).0 ≡ ok b
    → (a : A) × (t.0 ≡ ok a) × (continue k t ≡ k a t.1)
continue_ok (ok a, s) k b h = (a, refl, refl)
continue_ok (raise exc, s) k b h = cc

pub pure-Logs : {A : Type 0} (a : A) → Logs (pure a) []
pure-Logs a = record { logged = λ s b h. sym (append-nil s.calls) }

pub Logs-of_eq : {A : Type 0} (m : Send A) (xs ys : List Call) → xs ≡ ys → Logs m xs → Logs m ys
Logs-of_eq m xs ys e h = record { logged = λ s a r. h.logged s a r ∙ ap (λ t. s.calls ++ t) e }

pub bind-Logs :
    {A B : Type 0} (m : Send A) (k : A → Send B) (xs ys : List Call)
    → Logs m xs
    → ((a : A) → Logs (k a) ys)
    → Logs (m >>= k) (xs ++ ys)
bind-Logs m k xs ys first later = record {
  logged = λ s b h.
      let (a, e, f) = continue_ok (m s) k b h in
      let called = (later a).logged (m s).1 b (ap (λ t. t.0) (sym f) ∙ h) in
      ap (λ t. t.1.calls) f
      ∙ called
      ∙ ap (λ t. t ++ ys) (first.logged s a e)
      ∙ append_assoc s.calls xs ys;
}

All-snoc :
    (P : Call → Type 0) (calls : List Call) (call : Call)
    → All P calls
    → P call
    → All P (calls ++ call ∷ [])
All-snoc P [] call h p = (p, tt)
All-snoc P (c ∷ calls) call h p = (h.0, All-snoc P calls call h.1 p)

continue_keeps :
    {A B : Type 0} (P : Call → Type 0) (t : Result A × Session) (k : A → Send B)
    → All P t.1.calls
    → ((a : A) → Keeps P (k a))
    → All P (continue k t).1.calls
continue_keeps P (ok a, s) k h later = (later a).kept s h
continue_keeps P (raise exc, s) k h later = h

pub bind-Keeps :
    {A B : Type 0} (P : Call → Type 0) (m : Send A) (k : A → Send B)
    → Keeps P m
    → ((a : A) → Keeps P (k a))
    → Keeps P (m >>= k)
bind-Keeps P m k first later = record {
  kept = λ s h. continue_keeps P (m s) k (first.kept s h) later;
}

module _ (http : ProductHttp) (client : Client) (repr : Text → Text) (state : State) where
  catch_finder-calls :
      (describe : Text → Text) (r : Result Fields) (s : Session)
      → (catch_finder http client repr state describe r s).1.calls ≡ s.calls
  unfolding catch_finder tell
  catch_finder-calls describe (ok body) s = refl
  catch_finder-calls describe (raise exc) s = ground arith

  pub attempt-Logs :
      (call : Call) (describe : Text → Text)
      → Logs (attempt http client repr state call describe) (call ∷ [])
  unfolding attempt
  attempt-Logs call describe = record {
    logged = λ s a h.
        catch_finder-calls describe (post_call http client s.calls call)
          (record s { calls = s.calls ++ call ∷ [] });
  }

  pub attempt-Keeps :
      (P : Call → Type 0) (call : Call) (describe : Text → Text)
      → P call
      → Keeps P (attempt http client repr state call describe)
  unfolding attempt
  attempt-Keeps P call describe p = record {
    kept = λ s h.
        rw
          (catch_finder-calls describe (post_call http client s.calls call)
            (record s { calls = s.calls ++ call ∷ [] }))
          (All-snoc P s.calls call h p);
  }
