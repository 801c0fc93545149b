-- ===== src/Schema/RoundTrip.antt =====
-- What is encoded decodes to the same value, by the checks that the encoder makes.
use bettter_nest_mq.Prelude.{
  ◌≡◌, ◌≢◌, sym, ap, ◌∙◌, true, Option, none, some, Text, Eq, same_iff, schema_encoding, Result, ok,
  err, ◌>>=◌, >>=-eq-ok, >>_iff, ok-injective, reject_if-not_iff, rethrow, error, Failure,
}
use bettter_nest_mq.Schema.{
  Stringified, text, Json, ValueSchema, standard, codec, validate_schema, encoded, parsed,
  decode_schema, reads_back, lossless, json_text, encode_schema, schema_codec_encode,
  schema_codec_decode, validate_domain_failure,
}

module _ {Value : Type 0} ⦃e : Eq Value⦄ (json : Json Value) where
  reads : (o : Option Value) (w : Value) → reads_back json o w ≡ true → o ≡ some w
  reads none w q = cc q
  reads (some x) w q = ap some ((same_iff x w).0 q)

  lossless-parse :
      (s : Stringified) (v : Value) (t : Text) → lossless json s v ≡ ok t → json.parse t ≡ some v
  lossless-parse (text u) v t h =
      let (checked, last) = (>>_iff _ _ t).0 h in
      let same_text : u ≡ t = ok-injective last in
      rw (← same_text) (reads (json.parse u) v ((reject_if-not_iff _ schema_encoding).0 checked))
  lossless-parse Stringified.undefined v t h = cc h
  lossless-parse Stringified.thrown v t h = cc h

  json_text-parse : (v : Value) (t : Text) → json_text json v ≡ ok t → json.parse t ≡ some v
  unfolding json_text
  json_text-parse v t h = lossless-parse (json.stringify v) v t h

  -- What a decoder reads from a text that parses to a value is what the validator makes of it.
  decode_schema_of_parse :
      (schema : ValueSchema Value) (t : Text) (v : Value)
      → json.parse t ≡ some v
      → decode_schema json schema t ≡ validate_schema schema v
  unfolding decode_schema
  decode_schema_of_parse schema t v h = rw h

  -- A value that encodes decodes to itself: whatever text encodeSchema returns, decodeSchema with
  -- the same schema, plain or a codec, returns the value that was encoded.
  pub decode_schema-encode_schema :
      (schema : ValueSchema Value) (v : Value) (t : Text)
      → encode_schema json schema v ≡ ok t
      → decode_schema json schema t ≡ ok v
  unfolding encode_schema
  decode_schema-encode_schema (standard validate) v t h =
      let (w, validated, rest) = >>=-eq-ok (validate_schema (standard validate) v) _ h in
      let (checked, written) = (>>_iff _ _ t).0 rest in
      let q : w ≡ v = (same_iff w v).0 ((reject_if-not_iff _ schema_encoding).0 checked) in
      decode_schema_of_parse (standard validate) t w (json_text-parse w t written)
      ∙ ap (validate_schema (standard validate)) q
      ∙ validated
      ∙ ap ok q
  decode_schema-encode_schema (codec validate encode) v t h =
      let (u, written, rest) = >>=-eq-ok (encoded (encode v) >>= json_text json) _ h in
      let (w, decoded, rest') = >>=-eq-ok (decode_schema json (codec validate encode) u) _ rest in
      let (checked, last) = (>>_iff _ _ t).0 rest' in
      let q : w ≡ v = (same_iff w v).0 ((reject_if-not_iff _ schema_encoding).0 checked) in
      ap (decode_schema json (codec validate encode)) (sym (ok-injective last)) ∙ decoded ∙ ap ok q

  of_rethrow : {A : Type 0} (f : Failure) (m : Result A) (a : A) → rethrow f m ≡ ok a → m ≡ ok a
  of_rethrow f (ok b) a h = h
  of_rethrow f (err g) a h = cc h

  parsed-eq-ok : (o : Option Value) (v : Value) → parsed json o ≡ ok v → o ≡ some v
  parsed-eq-ok none v h = cc h
  parsed-eq-ok (some w) v h = ap some (ok-injective h)

  -- The engine persists JSON values: what schemaCodec encodes, it decodes to the same value.
  pub schema_codec_decode-schema_codec_encode :
      (schema : ValueSchema Value) (v j : Value)
      → schema_codec_encode json schema v ≡ ok j
      → schema_codec_decode json schema j ≡ ok v
  unfolding schema_codec_encode schema_codec_decode
  schema_codec_decode-schema_codec_encode schema v j h =
      let (t, written, read) =
        >>=-eq-ok (encode_schema json schema v) _ (of_rethrow (error 1) _ j h) in
      let back = decode_schema-encode_schema schema v t written in
      let q = decode_schema_of_parse schema t j (parsed-eq-ok (json.parse t) j read) in
      ap (rethrow (error 2)) (sym q ∙ back)

  -- A domain failure enters the engine unchanged or not at all: without a declared failure schema
  -- it is refused, and with one the validated failure is the one that was thrown.
  pub validate_domain_failure-eq :
      (schema : Option (ValueSchema Value)) (failure accepted : Value)
      → validate_domain_failure json schema failure ≡ ok accepted
      → (accepted ≡ failure) × (schema ≢ none)
  unfolding validate_domain_failure
  validate_domain_failure-eq none failure accepted h = cc h
  validate_domain_failure-eq (some schema) failure accepted h =
      let (t, written, read) = >>=-eq-ok (encode_schema json schema failure) _ h in
      let back = decode_schema-encode_schema schema failure t written in
      (ok-injective (sym read ∙ back), λ q. cc q)
