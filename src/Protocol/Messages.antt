-- ===== src/Protocol/Messages.antt =====
-- The messages of agent-rust/src/protocol/mod.rs that go through JSON, as their fields. The JSON
-- values, the numbers of type f64 and the base64 alphabet are libraries' and parameters.
use live_cdn.Common.{ℕ, ◌≡◌, refl, Option, none, some, List, Result, ok, err}

record HandshakeMessage : Type 0 where
  stream_key : List ℕ
  token : List ℕ
  ts : ℕ
  client_version : List ℕ

record DataMessage (T : Type 0) : Type 0 where
  seq : ℕ
  data_type : List ℕ
  data_bytes : List ℕ
  duration : T

record ControlMessage (J : Type 0) : Type 0 where
  action : List ℕ
  stream_key : Option (List ℕ)
  payload : Option J

-- The base64 library, with its standard alphabet.
record Base64 : Type 0 where
  encode : List ℕ → List ℕ
  decode : List ℕ → Option (List ℕ)

-- What the library documents: the text of some bytes is read back as these.
record IsBase64 (B : Base64) : Type 0 where
  reads_back : (d : List ℕ) → B.decode (B.encode d) ≡ some d

-- The fields of a data message as they stand in the JSON.
record DataFields (T : Type 0) : Type 0 where
  seq : ℕ
  type_text : List ℕ
  data_text : List ℕ
  duration : T

-- An error of the base64 library fails the whole message.
data InvalidBase64 : Type 0 where
  invalid_base64 : InvalidBase64

abbrev deserialized : Option (List ℕ) → Result InvalidBase64 (List ℕ)
deserialized none = err invalid_base64
deserialized (some d) = ok d

abbrev with_data :
    {T : Type 0}
    → DataFields T
    → Result InvalidBase64 (List ℕ)
    → Result InvalidBase64 (DataMessage T)
with_data f (err e) = err e
with_data f (ok d) =
    ok (record { seq = f.seq; data_type = f.type_text; data_bytes = d; duration = f.duration })

module _ (B : Base64) where
  -- `base64_bytes::serialize` and `base64_bytes::deserialize`
  serialize : List ℕ → List ℕ
  serialize d = B.encode d

  deserialize : List ℕ → Result InvalidBase64 (List ℕ)
  deserialize s = deserialized (B.decode s)

  data_fields : {T : Type 0} → DataMessage T → DataFields T
  unfolding serialize
  data_fields m = record {
    seq = m.seq;
    type_text = m.data_type;
    data_text = serialize m.data_bytes;
    duration = m.duration;
  }

  read_data : {T : Type 0} → DataFields T → Result InvalidBase64 (DataMessage T)
  unfolding deserialize
  read_data f = with_data f (deserialize f.data_text)

  -- A data message is read back from its fields.
  read_data-data_fields :
      {T : Type 0} → IsBase64 B → (m : DataMessage T) → read_data (data_fields m) ≡ ok m
  unfolding read_data data_fields
  read_data-data_fields b m = rw (b.reads_back m.data_bytes) refl
