-- ===== src/Telecom/Order.antt =====
-- Which addresses are dialled, and in which order.
use native.Mathlib.Nat.{mod-eq_of_lt, mod-add-mod}
use ssoc_broker.Base.{
  ℕ, zero, suc, ◌+◌, ◌%◌, ◌<◌, ◌≡◌, refl, sym, ap, ◌∙◌, ◌≢◌, List, [], ◌∷◌, some, true, false,
  is_empty, Text, codes, length, get_elem?, get_elem?_lt, arith,
}
use ssoc_broker.GoMap.{lookup, insert}
use ssoc_broker.Telecom.{
  Address, Net, add_tls, add_tcp, format_one, preformat_loop, preformat, iter_dial, dials,
}

module _ {A : Type 0} (addrs : List A) where
  pub iter_dial_lem :
      (index : ℕ)
      → index < length addrs
      → (a : A) × (get_elem? addrs index ≡ some a)
        × (iter_dial addrs index ≡ some (a, (index + 1) % length addrs))
  unfolding iter_dial
  iter_dial_lem index h = let (a, e) = get_elem?_lt addrs index h in (a, e, rw (e, iter_dial) refl)

  -- From a valid index, any number of calls in a row never panics, and the call number `k` dials the
  -- address `k` places further, around the list: no address is skipped and none is favoured.
  pub dials-get_elem? :
      (n index : ℕ)
      → index < length addrs
      → (l : List A) × (dials addrs n index ≡ some l)
        × (length l ≡ n)
        × ((k : ℕ) → k < n → get_elem? l k ≡ get_elem? addrs ((index + k) % length addrs))
  unfolding dials
  dials-get_elem? zero index h = ([], refl, refl, λ k lt. absurd (omega arith))
  dials-get_elem? (suc n) index h =
      let (a, e, once) = iter_dial_lem index h in
      let next : (index + 1) % length addrs < length addrs = omega arith in
      let (l, rest, size, law) = dials-get_elem? n ((index + 1) % length addrs) next in
      (a ∷ l, rw (once, dials) (rw rest refl), omega (arith, size), λ k lt. each a e l law k lt)
    where
      each :
          (a : A)
          → get_elem? addrs index ≡ some a
          → (l : List A)
          → ((k : ℕ)
              → k < n
              → get_elem? l k ≡ get_elem? addrs (((index + 1) % length addrs + k) % length addrs))
          → (k : ℕ) → k < suc n
          → get_elem? (a ∷ l) k ≡ get_elem? addrs ((index + k) % length addrs)
      each a e l law zero lt =
          sym e
          ∙ ap (get_elem? addrs) (sym (mod-eq_of_lt h) ∙ ap (λ i. i % length addrs) (omega arith))
      each a e l law (suc k) lt =
          law k (omega arith)
          ∙ ap (get_elem? addrs)
              (mod-add-mod (index + 1) (length addrs) k ∙ ap (λ i. i % length addrs) (omega arith))

-- A named address without a port that is given twice, where the host's addresses at ports 443 and 80
-- differ, is listed once over TLS and twice over TCP.
pub preformat_repeated :
    (net : Net) (ad : Address) (host : Text)
    → net.split_host_port ad.addr ≡ (host, [])
    → net.join_host_port host (codes "443") ≢ net.join_host_port host (codes "80")
    → is_empty ad.name ≡ false
    → preformat net (ad ∷ ad ∷ [])
      ≡ record { tls = true; addr = net.join_host_port host (codes "443"); name = ad.name }
        ∷ record { tls = false; addr = net.join_host_port host (codes "80"); name = ad.name }
        ∷ record { tls = false; addr = net.join_host_port host (codes "80"); name = ad.name }
        ∷ []
unfolding preformat preformat_loop format_one add_tls add_tcp lookup insert
preformat_repeated net ad host split ne named = ground (arith, split)
