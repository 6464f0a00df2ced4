-- ===== src/Protocol/Errors/Laws.antt =====
-- What BoundedAPIError lets through.
use toolhub.Common.{String, Option, none, some, ◌≡◌, refl, arith}
use toolhub.Protocol.Errors.{
  ApiError, ApiErrorClass, Error, api, as_api_error, class_of, find_class, public_or, to_error,
  class, classified, fallback_class, bounded_api_error, err_invalid_request,
}

-- The error is nothing but a public code with that code's fixed message and retry policy.
abbrev pub IsPublic : ApiError → Type 0
IsPublic e =
    (k : ApiErrorClass) × (class_of e.code ≡ some k)
    × (e.message ≡ k.message)
    × (e.retryable ≡ k.retryable)
    × (e.details ≡ none)

HasClass : String × ApiErrorClass → Type 0
HasClass (c, k) = class_of c ≡ some k

public_or-HasClass :
    (p : String × ApiErrorClass) (c : String) (o : Option ApiErrorClass)
    → HasClass p
    → class_of c ≡ o
    → HasClass (public_or p c o)
unfolding HasClass public_or
public_or-HasClass p c none h e = h
public_or-HasClass p c (some k) h e = e

fallback_class-HasClass : (f : String) → HasClass (fallback_class f)
unfolding fallback_class
fallback_class-HasClass f =
    public_or-HasClass (err_invalid_request, class "Request is invalid") f (class_of f)
      (unfold HasClass class_of find_class in refl) refl

classified-HasClass :
    (p : String × ApiErrorClass) (o : Option ApiError) → HasClass p → HasClass (classified p o)
unfolding classified
classified-HasClass p none h = h
classified-HasClass p (some e) h = public_or-HasClass p e.code (class_of e.code) h refl

-- Whatever the error and the fallback, the result is a public code with its fixed message and retry
-- policy, and no details.
pub bounded_api_error-IsPublic : (e : Error) (f : String) → IsPublic (bounded_api_error e f)
unfolding bounded_api_error HasClass
bounded_api_error-IsPublic e f =
    let p = classified (fallback_class f) (as_api_error e) in
    (
      p.1,
      classified-HasClass (fallback_class f) (as_api_error e) (fallback_class-HasClass f),
      refl,
      refl,
      refl,
    )

pub bounded_api_error-details : (e : Error) (f : String) → (bounded_api_error e f).details ≡ none
unfolding bounded_api_error
bounded_api_error-details e f = refl

public_or_self :
    (p : String × ApiErrorClass) (e : ApiError)
    → IsPublic e
    → to_error (public_or p e.code (class_of e.code)) ≡ e
unfolding public_or
public_or_self p e (k, c, m, r, d) = ground arith

pub bounded_public : (x : ApiError) (g : String) → IsPublic x → bounded_api_error (api x) g ≡ x
unfolding bounded_api_error as_api_error
bounded_public x g h = public_or_self (fallback_class g) x h

-- Bounding again, with any fallback, changes nothing.
pub bounded_api_error_idem :
    (e : Error) (f g : String)
    → bounded_api_error (api (bounded_api_error e f)) g ≡ bounded_api_error e f
bounded_api_error_idem e f g =
    bounded_public (bounded_api_error e f) g (bounded_api_error-IsPublic e f)
