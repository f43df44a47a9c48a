-- ===== src/Signals.antt =====
-- internal/signals: what the protocol asks of the text of evidence.
pub mod Keywords
pub mod Lock
pub mod Analysis
pub mod Negation
use text.Mathlib.Text.{find?}
use incident_investigator.Prelude.{String, Bool, true, false, List, [], ◌∷◌, ◌<>◌, is_some, any}
use incident_investigator.Prelude.Dict.{Dict}
use incident_investigator.Model.Platform.{Platform}
use incident_investigator.Model.Evidence.{Evidence, Value, flag, chars, other, number}

-- strings.Contains
unfoldable pub mentions : String → String → Bool
mentions t word = is_some (find? t word)

-- MatchesAny
unfoldable pub matches_any : String → List String → Bool
unfolding mentions
matches_any t words = any (mentions t) words

-- Keywords["config"]
abbrev pub config_keywords : List String
config_keywords =
    "config" ∷ "configuration" ∷ "env var" ∷ "environment variable" ∷ "secret" ∷ "parameter"
    ∷ "configmap" ∷ []

-- fmt.Sprint of a payload value
unfoldable pub print : Value → String
print (flag true) = "true"
print (flag false) = "false"
print (chars t) = t
print (other t) = t
print (number n t) = t

module _ (P : Platform) where
  open P use {to_lower}

  -- The loop of Haystack over the payload.
  unfoldable pub payload_text : Dict Value → String
  unfolding print
  payload_text [] = ""
  payload_text ((k, v) ∷ m) = " " <> to_lower k <> " " <> to_lower (print v) <> payload_text m

  -- Haystack
  unfoldable pub haystack : Evidence → String
  unfolding payload_text
  haystack e =
      to_lower e.summary
      <> " "
      <> to_lower e.category
      <> " "
      <> to_lower e.entity
      <> payload_text e.payload
