-- ===== src/Mlink/Ident.antt =====
-- bridge/gateway/ident.go and issue.go, and what bridge/mlink reads of an agent's address. A `net.IP`
-- is its bytes. How net prints an address that is no IPv4 address is a parameter; `Auth` admits none.
use ssoc_broker.Base.{
  [], ◌∷◌, ◌++◌, Option, none, some, Bool, false, ◌&&◌, if◌then◌else◌, ◌==◌, length, drop, Text,
  text_eq, take,
}
use ssoc_broker.Base.Int.{ℤ}
use ssoc_broker.Base.Decimal.{decimal}

-- The fields that the broker reads.
pub record Ident : Type 0 where
  pub machine_id : Text
  pub inet : Text
  pub goos : Text
  pub arch : Text
  pub mac : Text
  pub semver : Text
  pub unload : Bool
  pub unstable : Bool
  pub customized : Text

pub record Issue : Type 0 where
  pub id : ℤ
  pub passwd : Text

abbrev mapped_prefix : Text
mapped_prefix = 0 ∷ 0 ∷ 0 ∷ 0 ∷ 0 ∷ 0 ∷ 0 ∷ 0 ∷ 0 ∷ 0 ∷ 255 ∷ 255 ∷ []

-- `IP.To4`: four bytes, or sixteen that map four.
unfoldable pub to4 : Text → Option Text
to4 ip =
    if length ip == 4
    then some ip
    else if length ip == 16 && text_eq (take 12 ip) mapped_prefix
    then some (drop 12 ip)
    else none

-- `IsLoopback` of an IPv4 address.
unfoldable pub is_loopback : Text → Bool
is_loopback [] = false
is_loopback (a ∷ ip) = a == 127

-- `IsUnspecified` of an IPv4 address.
unfoldable pub is_unspecified : Text → Bool
is_unspecified ip = text_eq ip (0 ∷ 0 ∷ 0 ∷ 0 ∷ [])

unfoldable pub dotted : Text → Text
dotted [] = []
dotted (a ∷ []) = decimal a
dotted (a ∷ b ∷ ip) = decimal a ++ (b'.' ∷ dotted (b ∷ ip))

-- `IP.String`.
unfoldable pub ip_string : (Text → Text) → Text → Text
unfolding to4 dotted
ip_string other ip = elim (to4 ip) [ some ip4 ↦ dotted ip4 | none ↦ other ip ]

-- `strings.HasPrefix(semver, "4.")`.
unfoldable pub is_version4 : Text → Bool
is_version4 [] = false
is_version4 (a ∷ []) = false
is_version4 (a ∷ b ∷ rest) = a == b'4' && b == b'.'
