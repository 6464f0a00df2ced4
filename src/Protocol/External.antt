-- ===== src/Protocol/External.antt =====
-- What the protocol takes from code that is not in the repository.
use toolhub.Common.{Char, String, Bool, Option}
use toolhub.Protocol.Bundle.{RoutingBundle}

pub record External : Type 0 where
  -- github.com/google/uuid: whether uuid.Validate returns nil.
  pub validate_uuid : String → Bool
  -- Unicode's lower case of a character above ASCII.
  pub unicode_lower : Char → Char
  -- The SHA-256, in hexadecimal, of the bundle's canonical JSON (jsoncanonicalizer); `none` is an
  -- error of the canonicalizer.
  pub canonical_hash : RoutingBundle → Option String
