-- ===== src/Node/Envelope.antt =====
-- packages/rfmesh-node/src/rfmesh_node/bearer/envelope.py: the messages of the mesh as bytes, a length of
-- four bytes and a msgpack body. msgpack and the pydantic models are the parameter `Codec`.
pub mod RoundTrip
use rfmesh_workspace.Base.{
  ℕ, ◌+◌, ◌*◌, ◌/◌, ◌%◌, ◌≡◌, List, [], ◌∷◌, ◌++◌, Option, none, some, Bool, true, false, not, ltb,
  ◌==◌, length, take, drop, slice, if◌then◌else◌,
}
use rfmesh_workspace.Base.Results.{Try, ok, err, refuse, ◌>>◌}

pub data EnvelopeError : Type 0 where
  too_large decode_error : EnvelopeError

-- A bearing with its debug payload, which one bearer leaves out, and whatever else it says.
pub record BearingReport (Rest : Type 0) : Type 0 where
  pub raw_pseudospectrum : Option (List ℕ)
  pub rest : Rest

pub data Message (Rest Status Fix : Type 0) : Type 0 where
  bearing : BearingReport Rest → Message Rest Status Fix
  status : Status → Message Rest Status Fix
  fix : Fix → Message Rest Status Fix

-- The strings that tell the types apart; any other string is unknown.
pub data Tag : Type 0 where
  bearing_report node_status fix_event unknown : Tag

-- What `unpackb` makes of bytes: an exception, an object that is no dict, or a dict with what stands
-- under "type" if it is a string and under "payload" if it is a dict.
pub data Unpacked (Payload : Type 0) : Type 0 where
  raises not_dict : Unpacked Payload
  envelope : Option Tag → Option Payload → Unpacked Payload

-- What msgpack packs it unpacks, and a model accepts what it dumped.
pub record Codec (Rest Status Fix : Type 0) : Type 1 where
  pub Payload : Type 0
  pub packb : Tag → Payload → List ℕ
  pub unpackb : List ℕ → Unpacked Payload
  pub unpackb-packb : (t : Tag) (p : Payload) → unpackb (packb t p) ≡ envelope (some t) (some p)
  pub dump_bearing : BearingReport Rest → Payload
  pub dump_status : Status → Payload
  pub dump_fix : Fix → Payload
  pub validate_bearing : Payload → Option (BearingReport Rest)
  pub validate_status : Payload → Option Status
  pub validate_fix : Payload → Option Fix
  pub validate_bearing-dump_bearing :
      (b : BearingReport Rest) → validate_bearing (dump_bearing b) ≡ some b
  pub validate_status-dump_status : (s : Status) → validate_status (dump_status s) ≡ some s
  pub validate_fix-dump_fix : (f : Fix) → validate_fix (dump_fix f) ≡ some f

abbrev pub max_message_bytes : ℕ
max_message_bytes = 65536

-- `struct.Struct(">I")`
abbrev pub pack_length : ℕ → List ℕ
pack_length n = (n / 16777216) ∷ (n / 65536 % 256) ∷ (n / 256 % 256) ∷ (n % 256) ∷ []

abbrev pub unpack_length : List ℕ → ℕ
unpack_length (a ∷ b ∷ c ∷ d ∷ rest) = 16777216 * a + 65536 * b + 256 * c + d
unpack_length _ = 0

-- `isinstance` and `model_dump`, then `packb`.
module _ {Rest Status Fix : Type 0} (codec : Codec Rest Status Fix) where
  open codec use {
    packb, unpackb, dump_bearing, dump_status, dump_fix, validate_bearing, validate_status,
    validate_fix,
  }

  unfoldable pub body_of : Message Rest Status Fix → List ℕ
  body_of (bearing b) = packb bearing_report (dump_bearing b)
  body_of (status s) = packb node_status (dump_status s)
  body_of (fix f) = packb fix_event (dump_fix f)

  unfoldable pub encode_envelope : Message Rest Status Fix → Try EnvelopeError (List ℕ)
  encode_envelope message =
      let body = body_of message in
      refuse (ltb max_message_bytes (length body)) too_large
      >> ok (pack_length (length body) ++ body)

  abbrev pub or_invalid :
      {A : Type 0}
      → (A → Message Rest Status Fix)
      → Option A
      → Try EnvelopeError (Message Rest Status Fix)
  or_invalid make none = err decode_error
  or_invalid make (some a) = ok (make a)

  -- The model that the type names.
  unfoldable pub validate : Tag → codec.Payload → Try EnvelopeError (Message Rest Status Fix)
  validate bearing_report payload = or_invalid bearing (validate_bearing payload)
  validate node_status payload = or_invalid status (validate_status payload)
  validate fix_event payload = or_invalid fix (validate_fix payload)
  validate unknown payload = err decode_error

  unfoldable pub read_body : Unpacked codec.Payload → Try EnvelopeError (Message Rest Status Fix)
  read_body raises = err decode_error
  read_body not_dict = err decode_error
  read_body (envelope none payload) = err decode_error
  read_body (envelope (some tag) none) = err decode_error
  read_body (envelope (some tag) (some payload)) = validate tag payload

  -- What stands behind the declared length is not looked at.
  unfoldable pub decode_envelope : List ℕ → Try EnvelopeError (Message Rest Status Fix)
  decode_envelope bytes =
      let declared_length = unpack_length (take 4 bytes) in
      let body = slice bytes 4 (4 + declared_length) in
      refuse (ltb (length bytes) 4) decode_error
      >> refuse (not (length body == declared_length)) decode_error
      >> refuse (ltb max_message_bytes declared_length) too_large
      >> read_body (unpackb body)

abbrev pub strip_pseudospectrum : {Rest : Type 0} → BearingReport Rest → BearingReport Rest
strip_pseudospectrum b = elim b.raw_pseudospectrum [
  | none ↦ b
  | some spectrum ↦ record b { raw_pseudospectrum = none }
]
