-- ===== src/Serverd/Frame.antt =====
-- channel/serverd/server.go: the frames of the handshake, a big-endian length of four bytes and JSON
-- text. A stream is the list of the bytes that arrive before it ends; encoding/json is a parameter.
use ssoc_broker.Base.{
  ℕ, zero, suc, ◌+◌, ◌*◌, ◌/◌, ◌%◌, ◌^◌, ◌≤◌, ◌≡◌, refl, ap, ◌∙◌, [], ◌∷◌, ◌++◌, Option, none, some,
  if◌then◌else◌, arith, Text, length, ltb,
}

-- `binary.BigEndian.PutUint32`.
unfoldable pub put_uint32 : ℕ → Text
put_uint32 n = n / 2 ^ 24 % 256 ∷ n / 2 ^ 16 % 256 ∷ n / 2 ^ 8 % 256 ∷ n % 256 ∷ []

-- `binary.BigEndian.Uint32`, of four bytes.
unfoldable pub uint32 : ℕ → ℕ → ℕ → ℕ → ℕ
uint32 a b c d = a * 2 ^ 24 + b * 2 ^ 16 + c * 2 ^ 8 + d

-- `io.ReadFull`: `n` bytes and the rest of the stream, or an error if it ends before.
abbrev pub read_full : ℕ → Text → Option (Text × Text)
read_full zero s = some ([], s)
read_full (suc n) [] = none
read_full (suc n) (c ∷ s) = elim (read_full n s) [
  | none ↦ none
  | some (body, rest) ↦ some (c ∷ body, rest)
]

-- `readRequest` before the JSON.
unfoldable pub read_frame : Text → Option (Text × Text)
unfolding uint32
read_frame (a ∷ b ∷ c ∷ d ∷ s) = read_full (uint32 a b c d) s
read_frame _ = none

unfoldable pub read_request : {R : Type 0} → (Text → Option R) → Text → Option R
unfolding read_frame
read_request unmarshal s = elim (read_frame s) [ none ↦ none | some (body, _) ↦ unmarshal body ]

-- `writeResponse`: the bytes written, or an error.
unfoldable pub write_response : {R : Type 0} → (R → Option Text) → R → Option Text
unfolding put_uint32
write_response marshal resp = elim (marshal resp) [
  | none ↦ none
  | some body ↦ if ltb 65535 (length body) then none else some (put_uint32 (length body) ++ body)
]

read_full-append : (body rest : Text) → read_full (length body) (body ++ rest) ≡ some (body, rest)
read_full-append [] rest = refl
read_full-append (c ∷ body) rest = ground (arith, read_full-append body rest)

-- A reply of at most 65535 bytes is written as a frame that `readRequest`'s framing reads back, with
-- the rest of the stream left; a longer one is refused.
pub read_frame-write_response :
    {R : Type 0} (marshal : R → Option Text) (resp : R) (body rest : Text)
    → marshal resp ≡ some body
    → ((length body ≤ 65535)
        → (raw : Text) × (write_response marshal resp ≡ some raw)
          × (read_frame (raw ++ rest) ≡ some (body, rest)))
      × ((65536 ≤ length body) → write_response marshal resp ≡ none)
unfolding write_response read_frame put_uint32 uint32
read_frame-write_response marshal resp body rest e = (
  (λ h. (
    put_uint32 (length body) ++ body,
    ground arith,
    ap (λ n. read_full n (body ++ rest)) (omega arith) ∙ read_full-append body rest,
  )),
  λ h. ground arith,
)
