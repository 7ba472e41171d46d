-- ===== src/Tools/DirectFetch/Body.antt =====
-- The bound on a body.
use edufurther_agent_be.Base.{
  ℕ, ◌+◌, ◌≤◌, ◌<◌, ◌≡◌, ap, sym, ◌⊎◌, inl, inr, List, [], ◌∷◌, ◌++◌, length, length-append, arith,
  lit,
}
use native.Mathlib.Decide.{dec_le}
use mathlib.Core.List.{append_assoc, append-nil}
use edufurther_agent_be.Errors.{ok, raise}
use edufurther_agent_be.Tools.DirectFetch.{Response, read_chunks, read_bounded, refusal}

-- `b"".join(chunks)`
abbrev pub joined : List (List ℕ) → List ℕ
joined [] = []
joined (c ∷ chunks) = c ++ joined chunks

read_chunks-small :
    (n : ℕ) (content : List ℕ) (chunks : List (List ℕ))
    → length content + length (joined chunks) ≤ n
    → read_chunks n content chunks ≡ ok (content ++ joined chunks)
unfolding read_chunks
read_chunks-small n content [] h = ap ok (sym (append-nil content))
read_chunks-small n content (c ∷ chunks) h = ground (
  arith,
  length-append c (joined chunks),
  length-append content c,
  append_assoc content c (joined chunks),
  read_chunks-small n (content ++ c) chunks,
)

read_chunks-large :
    (n : ℕ) (content : List ℕ) (chunks : List (List ℕ))
    → length content ≤ n
    → n < length content + length (joined chunks)
    → read_chunks n content chunks ≡ raise (refusal (lit "Source response exceeds maximum size"))
unfolding read_chunks
read_chunks-large n content [] le h = absurd (omega arith)
read_chunks-large n content (c ∷ chunks) le h = ground (
  arith,
  length-append c (joined chunks),
  length-append content c,
  read_chunks-large n (content ++ c) chunks,
)

-- A body is read whole when it fits the limit, and refused when it does not, however it is cut into
-- chunks.
pub read_bounded_lem :
    (n : ℕ) (response : Response)
    → ((length (joined response.chunks) ≤ n)
        × (read_bounded n response ≡ ok (joined response.chunks)))
      ⊎ ((n < length (joined response.chunks))
          × (read_bounded n response
              ≡ raise (refusal (lit "Source response exceeds maximum size"))))
unfolding read_bounded
read_bounded_lem n response = elim (dec_le (length (joined response.chunks)) n) [
  | yes p ↦ inl (p, read_chunks-small n [] response.chunks (omega arith))
  | no p ↦ inr (omega arith, read_chunks-large n [] response.chunks (omega arith) (omega arith))
]
