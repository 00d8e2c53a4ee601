-- ===== src/Accounts/Apple.antt =====
-- `validate_apple_identity_token` of backend/app/auth/jwt.py.
use kids_chores_api.Models.{Time}
use kids_chores_api.Prelude.{text_eq, none, find?, codes, List, some, Option, Text}

-- What is read of a payload.
pub record Payload : Type 0 where
  pub sub : Option Text

-- Apple's server and `jose`: the keys that are served (or no answer), the id of a key, the id that
-- the token's header names (or no header), and the claims of a token that is signed by a key, for
-- an audience, and has not expired. Of the claims only `sub` is read, which need not be there.
pub record AppleKeys : Type 1 where
  pub Key : Type 0
  pub fetch : Time → Option (List Key)
  pub kid_of : Key → Text
  pub header_kid : Text → Option (Option Text)
  pub verified : Key → Text → Text → Time → Option Payload

-- `settings.apple_bundle_id`
abbrev apple_bundle_id : Text
apple_bundle_id = codes "com.klsingh.KidsChores"

module _ (K : AppleKeys) where
  -- `next((k for k in jwks["keys"] if k["kid"] == kid), None)`
  matching_key : Option Text → List K.Key → Option K.Key
  matching_key none keys = none
  matching_key (some kid) keys = find? (λ (k : K.Key). text_eq (K.kid_of k) kid) keys

  decode_with : Option K.Key → Text → Time → Option Payload
  decode_with none token now = none
  decode_with (some key) token now = K.verified key apple_bundle_id token now

  from_header : Option (Option Text) → List K.Key → Text → Time → Option Payload
  unfolding matching_key decode_with
  from_header none keys token now = none
  from_header (some kid) keys token now = decode_with (matching_key kid keys) token now

  -- The payload, or `none` where an exception is logged and raised again.
  unfoldable pub validate_apple_identity_token : Text → Time → Option Payload
  unfolding from_header
  validate_apple_identity_token identity_token now = elim (K.fetch now) [
    | none ↦ none
    | some keys ↦ from_header (K.header_kid identity_token) keys identity_token now
  ]
