-- ===== src/Schema.antt =====
-- The value boundary: contracts/schema.ts, and its uses in engine/job-compiler.ts. A schema's
-- validator and a codec's encoder are application code, pure functions here; JSON.stringify,
-- JSON.parse and isDeepStrictEqual enter by `Json` and `Eq`. Promises are awaited at once in the
-- source, so a rejection is an `err`.
pub mod RoundTrip
use bettter_nest_mq.Prelude.{
  ℕ, ◌≡◌, Bool, true, false, not, Option, none, some, Text, Eq, same, Failure, contract,
  schema_defect, schema_encoding, schema_validation, error, Result, ok, err, ◌>>=◌, ◌>>◌, reject_if,
  rethrow,
}

-- What a Standard Schema validator gives: a value, issues, or an exception.
pub data Validated (Value : Type 0) : Type 0 where
  value : Value → Validated Value
  issues thrown : Validated Value

-- JSON.stringify: a text, undefined, or an exception. JSON.parse: a value or an exception.
pub data Stringified : Type 0 where
  text : Text → Stringified
  undefined thrown : Stringified

pub record Json (Value : Type 0) : Type 0 where
  pub stringify : Value → Stringified
  pub parse : Text → Option Value

-- A schema, or a codec: a schema with an encoder, which may throw.
pub data ValueSchema (Value : Type 0) : Type 0 where
  standard : (Value → Validated Value) → ValueSchema Value
  codec : (Value → Validated Value) → (Value → Option Value) → ValueSchema Value

module _ {Value : Type 0} where
  abbrev pub standard_schema : ValueSchema Value → Value → Validated Value
  standard_schema (standard validate) = validate
  standard_schema (codec validate encode) = validate

  abbrev accepted : Validated Value → Result Value
  accepted (value v) = ok v
  accepted issues = err schema_validation
  accepted thrown = err schema_defect

  unfoldable pub validate_schema : ValueSchema Value → Value → Result Value
  validate_schema schema input = accepted (standard_schema schema input)

  abbrev encoded : Option Value → Result Value
  encoded none = err schema_defect
  encoded (some v) = ok v

  module _ (json : Json Value) where
    abbrev pub parsed : Option Value → Result Value
    parsed none = err schema_encoding
    parsed (some v) = ok v

    unfoldable pub decode_schema : ValueSchema Value → Text → Result Value
    decode_schema schema t = parsed (json.parse t) >>= validate_schema schema

    module _ ⦃e : Eq Value⦄ where
      -- JSON.parse(text), of a text that JSON.stringify has made, against the value.
      abbrev reads_back : Option Value → Value → Bool
      reads_back none v = false
      reads_back (some w) v = same w v

      abbrev lossless : Stringified → Value → Result Text
      lossless (text t) v = reject_if (not (reads_back (json.parse t) v)) schema_encoding >> ok t
      lossless undefined v = err schema_encoding
      lossless thrown v = err schema_encoding

      unfoldable pub json_text : Value → Result Text
      json_text v = lossless (json.stringify v) v

      unfoldable pub encode_schema : ValueSchema Value → Value → Result Text
      encode_schema (codec validate encode) v = do
        t ← encoded (encode v) >>= json_text
        decoded ← decode_schema (codec validate encode) t
        reject_if (not (same decoded v)) schema_encoding
        ok t
      encode_schema (standard validate) v = do
        validated ← validate_schema (standard validate) v
        reject_if (not (same validated v)) schema_encoding
        json_text validated

      -- schemaCodec: the encoder gives the parsed text, and any failure becomes the engine's.
      unfoldable pub schema_codec_encode : ValueSchema Value → Value → Result Value
      schema_codec_encode schema v =
          rethrow (error 1) (encode_schema schema v >>= λ t. parsed (json.parse t))

      unfoldable pub schema_codec_decode : ValueSchema Value → Value → Result Value
      schema_codec_decode schema v = rethrow (error 2) (validate_schema schema v)

      -- validateDomainFailure: the failure that a handler throws, before it enters the engine.
      unfoldable pub validate_domain_failure : Option (ValueSchema Value) → Value → Result Value
      validate_domain_failure none failure = err contract
      validate_domain_failure (some schema) failure =
          encode_schema schema failure >>= decode_schema schema
