-- ===== src/Telecom.antt =====
-- bridge/telecom/addr.go and dial.go: the list of addresses that the broker dials, and the order in
-- which it dials them. How net/url and net split an address is a parameter.
pub mod Order
pub mod Client
pub mod Joining
use ssoc_broker.Base.{
  ℕ, zero, suc, ◌+◌, ◌%◌, codes, List, [], ◌∷◌, ◌++◌, Option, none, some, Bool, true, false,
  if◌then◌else◌, is_empty, Text, text_dec, length, get_elem?,
}
use ssoc_broker.GoMap.{lookup, insert}

pub record Address : Type 0 where
  pub tls : Bool
  pub addr : Text
  pub name : Text

-- `smap`, `tmap` and `ret` of `Preformat`.
pub record Formatted : Type 0 where
  pub smap : List (Text × Address)
  pub tmap : List (Text × Address)
  pub ret : List Address

-- How net splits a host from its port (empty if there is none), and joins them.
pub record Net : Type 0 where
  pub split_host_port : Text → Text × Text
  pub join_host_port : Text → Text → Text

module _ (net : Net) where
  unfoldable pub add_tls : Text → Text → Formatted → Formatted
  add_tls saddr name f = elim (lookup text_dec saddr f.smap) [
    | some _ ↦ f
    | none ↦
        let a : Address = record { tls = true; addr = saddr; name = name } in
        record f { smap = insert text_dec saddr a f.smap; ret = f.ret ++ (a ∷ []) }
  ]

  -- The test reads `tmap` at the TCP address, the write is at the TLS address.
  unfoldable pub add_tcp : Text → Text → Text → Formatted → Formatted
  add_tcp saddr taddr name f = elim (lookup text_dec taddr f.tmap) [
    | some _ ↦ f
    | none ↦
        let a : Address = record { tls = false; addr = taddr; name = name } in
        record f { tmap = insert text_dec saddr a f.tmap; ret = f.ret ++ (a ∷ []) }
  ]

  -- The loop's body.
  unfoldable pub format_one : Address → Formatted → Formatted
  unfolding add_tls add_tcp
  format_one ad f =
      let (host, port) = net.split_host_port ad.addr in
      let name : Text = if is_empty ad.name then host else ad.name in
      let saddr : Text = net.join_host_port host (if is_empty port then codes "443" else port) in
      let taddr : Text = net.join_host_port host (if is_empty port then codes "80" else port) in
      add_tcp saddr taddr name (add_tls saddr name f)

  unfoldable pub preformat_loop : List Address → Formatted → Formatted
  unfolding format_one
  preformat_loop [] f = f
  preformat_loop (ad ∷ ads) f = preformat_loop ads (format_one ad f)

  unfoldable pub preformat : List Address → List Address
  unfolding preformat_loop
  preformat ads = (preformat_loop ads (record { smap = []; tmap = []; ret = [] })).ret

-- `iterDial`: the address that is dialled, and the next index; `none` is a panic, on an empty list.
unfoldable pub iter_dial : {A : Type 0} → List A → ℕ → Option (A × ℕ)
iter_dial addrs index = elim (get_elem? addrs index) [
  | none ↦ none
  | some addr ↦ some (addr, (index + 1) % length addrs)
]

-- The addresses of `n` calls in a row.
unfoldable pub dials : {A : Type 0} → List A → ℕ → ℕ → Option (List A)
unfolding iter_dial
dials addrs zero index = some []
dials addrs (suc n) index = elim (iter_dial addrs index) [
  | none ↦ none
  | some (addr, next) ↦ elim (dials addrs n next) [ none ↦ none | some l ↦ some (addr ∷ l) ]
]
