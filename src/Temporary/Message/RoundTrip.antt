-- ===== src/Temporary/Message/RoundTrip.antt =====
-- What one side marshals the other side unmarshals, under every mask.
use Prim.Native.Nat.{bit_xor}
use ssoc_broker.Base.{
  ℕ, ◌/◌, ◌%◌, ◌^◌, ◌<◌, ◌≡◌, refl, ◌∙◌, ap, ◌↔◌, [], ◌∷◌, ◌++◌, Option, none, some, map, arith,
  length, Text,
}
use ssoc_broker.Base.Bits.{bit_xor-bit_xor}
use ssoc_broker.Temporary.Message.{
  Message, Receive, mask_bytes, put_uint16, uint16, marshal, parse_frame, unmarshal,
}

-- The data bytes that a message carries: none for nil.
abbrev pub payload : {D : Type 0} → (D → Option Text) → Option D → Option Text
payload marshal_json none = some []
payload marshal_json (some d) = marshal_json d

map_xor_twice : (mask : ℕ) (s : Text) → map (λ c. bit_xor c mask) (map (λ c. bit_xor c mask) s) ≡ s
map_xor_twice mask [] = refl
map_xor_twice mask (c ∷ s) = cc (bit_xor-bit_xor c mask, map_xor_twice mask s)

-- Masking twice by one mask gives the frame back.
pub mask_bytes-mask_bytes : (mask : ℕ) (s : Text) → mask_bytes mask (mask_bytes mask s) ≡ s
unfolding mask_bytes
mask_bytes-mask_bytes mask s = ground (arith, map_xor_twice mask s)

unmarshal_masked :
    (r : Receive) (hi lo : ℕ) (body : Text)
    → unmarshal r (mask_bytes r.mask (hi ∷ lo ∷ body))
      ≡ some (record r { opcode = uint16 hi lo; body = body })
unfolding unmarshal parse_frame mask_bytes
unmarshal_masked r hi lo body =
    ground (arith, bit_xor-bit_xor hi r.mask, bit_xor-bit_xor lo r.mask, map_xor_twice r.mask body)

marshal-payload :
    {D : Type 0} (marshal_json : D → Option Text) (m : Message D) (json : Text)
    → payload marshal_json m.body ≡ some json
    → marshal marshal_json m ≡ some (mask_bytes m.mask (put_uint16 m.opcode ++ json))
unfolding marshal put_uint16
marshal-payload marshal_json m json e = ground arith

-- A message whose opcode has sixteen bits and whose data encoding/json can write (or is nil):
-- `marshal` makes a frame of it, and on a connection with the same mask `unmarshal` reads the frame
-- back, with the same opcode, and as data the JSON text of the message, empty for nil.
pub unmarshal-marshal :
    {D : Type 0} (marshal_json : D → Option Text) (m : Message D) (r : Receive) (json : Text)
    → m.opcode < 2 ^ 16
    → r.mask ≡ m.mask
    → payload marshal_json m.body ≡ some json
    → (raw : Text) × (marshal marshal_json m ≡ some raw)
      × (unmarshal r raw ≡ some (record r { opcode = m.opcode; body = json }))
unfolding put_uint16 uint16
unmarshal-marshal marshal_json m r json small same e = (
  mask_bytes m.mask (put_uint16 m.opcode ++ json),
  marshal-payload marshal_json m json e,
  rw (← same) (
      unmarshal_masked r (m.opcode / 256 % 256) (m.opcode % 256) json
      ∙ ap (λ (n : ℕ). some (record r { opcode = n; body = json })) (omega arith)),
)

-- `unmarshal` refuses exactly the frames that are too short for an opcode.
pub unmarshal-none_iff : (r : Receive) (raw : Text) → (unmarshal r raw ≡ none) ↔ (length raw < 2)
unfolding unmarshal parse_frame mask_bytes
unmarshal-none_iff r [] = ((λ _. omega arith), λ _. refl)
unmarshal-none_iff r (c ∷ []) = ((λ _. omega arith), λ _. refl)
unmarshal-none_iff r (hi ∷ lo ∷ body) = ((λ e. absurd (ground arith)), λ h. absurd (omega arith))
