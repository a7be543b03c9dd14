-- ===== src/Temporary/Message.antt =====
-- app/temporary/message.go and receive.go: a frame is a big-endian opcode of two bytes and the JSON
-- text of the data, each byte masked by exclusive or with the mask that the connection negotiated.
-- encoding/json is a parameter: the type of data and what `json.Marshal` makes of it (`none` is its
-- error).
pub mod RoundTrip
use Prim.Native.Nat.{bit_xor}
use ssoc_broker.Base.{
  ℕ, ◌+◌, ◌*◌, ◌/◌, ◌%◌, ◌^◌, List, [], ◌∷◌, ◌++◌, Option, none, some, map, if◌then◌else◌, ◌==◌,
  Text,
}

-- `Data` is nil, or a value that encoding/json is given.
pub record Message (D : Type 0) : Type 0 where
  pub opcode : ℕ
  pub body : Option D
  pub mask : ℕ

pub record Receive : Type 0 where
  pub opcode : ℕ
  pub body : Text
  pub mask : ℕ

-- `for i := range b { b[i] ^= mask }` under `if mask != 0`.
unfoldable pub mask_bytes : ℕ → Text → Text
mask_bytes mask raw = if mask == 0 then raw else map (λ c. bit_xor c mask) raw

-- `binary.BigEndian.PutUint16`.
unfoldable pub put_uint16 : ℕ → Text
put_uint16 n = n / 256 % 256 ∷ n % 256 ∷ []

-- `binary.BigEndian.Uint16`, of two bytes.
unfoldable pub uint16 : ℕ → ℕ → ℕ
uint16 hi lo = hi * 256 + lo

module _ {D : Type 0} (marshal_json : D → Option Text) where
  unfoldable pub marshal : Message D → Option Text
  unfolding mask_bytes put_uint16
  marshal m = elim m.body [
    | none ↦ some (mask_bytes m.mask (put_uint16 m.opcode))
    | some d ↦ elim (marshal_json d) [
      | none ↦ none
      | some json ↦ some (mask_bytes m.mask (put_uint16 m.opcode ++ json))
    ]
  ]

-- After the mask is off.
unfoldable pub parse_frame : Receive → Text → Option Receive
unfolding uint16
parse_frame r (hi ∷ lo ∷ body) = some (record r { opcode = uint16 hi lo; body = body })
parse_frame r _ = none

-- `unmarshal`: `none` is the syntax error for a frame of less than two bytes.
unfoldable pub unmarshal : Receive → Text → Option Receive
unfolding parse_frame mask_bytes
unmarshal r [] = none
unmarshal r (c ∷ []) = none
unmarshal r (hi ∷ lo ∷ body) = parse_frame r (mask_bytes r.mask (hi ∷ lo ∷ body))
