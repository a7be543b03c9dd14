-- ===== src/Temporary/Linkhub/Tokens.antt =====
-- From a token to its connection.
use ssoc_broker.Base.{
  ℕ, suc, ◌≤◌, ◌<◌, ◌≡◌, refl, ap, ◌∙◌, ◌≢◌, ◌⊎◌, inl, inr, List, [], ◌∷◌, ◌++◌, none, some, arith,
  Text, All,
}
use ssoc_broker.Base.Int.{ℤ, pos, negsuc, IsInt64}
use ssoc_broker.Base.Decimal.{decimal, format_int}
use ssoc_broker.Base.Decimal.Parse.{parse_int, parse_int-format_int, decimal-All}
use ssoc_broker.Store.{Result, Result-cases, ok, Inserted}
use ssoc_broker.Minion.{online, deleted, Minion, MinionTag, MinionTable}
use ssoc_broker.Temporary.BucketMap.{int64, load}
use ssoc_broker.Temporary.BucketMap.Laws.{IsTable, store-table, load-table, delete-table}
use ssoc_broker.Temporary.Linkhub.{
  Ident, Conn, Claim, Site, LinkHub, claimed, by_inet, inet_text, updated, offline_row, own_row,
  go_online, go_offline, sign_token, parse_id, rand_mask, claim_of, new_minion, authorize, connect,
  disconnect, token_lookup,
}

parse_id-All : (s rest : Text) → All (λ c. c ≢ b'.') s → parse_id (s ++ (b'.' ∷ rest)) ≡ s
unfolding parse_id
parse_id-All [] rest h = refl
parse_id-All (c ∷ s) rest h = ground (arith, h.0, parse_id-All s rest h.1)

above_sep : (s : Text) → All (λ c. b'0' ≤ c) s → All (λ c. c ≢ b'.') s
above_sep [] h = tt
above_sep (c ∷ s) h = (omega (arith, h.0), above_sep s h.1)

format_int-All : (id : ℤ) → All (λ c. c ≢ b'.') (format_int id)
unfolding format_int decimal
format_int-All (pos n) = above_sep (decimal n) (decimal-All (suc n) n)
format_int-All (negsuc n) =
    ((λ e. absurd (omega arith)), above_sep (decimal (suc n)) (decimal-All (suc (suc n)) (suc n)))

-- The id that a token was signed for is the one that `TokenLookup` reads from it.
pub parse_id-sign_token :
    (hex : Text) (id : ℤ) → IsInt64 id → parse_int (parse_id (sign_token hex id)) ≡ id
unfolding sign_token
parse_id-sign_token hex id h =
    ap parse_int (parse_id-All (format_int id) hex (format_int-All id)) ∙ parse_int-format_int id h

token_lookup_found :
    {D : Type 0} (h : LinkHub D) (token : Text) (id : ℤ) (conn : Conn)
    → parse_int (parse_id token) ≡ id
    → load h.minions (int64 id) ≡ some (some conn)
    → conn.claim.token ≡ token
    → token_lookup h token ≡ some (some conn)
unfolding token_lookup
token_lookup_found h token id conn read here same = rw (read, token_lookup) (rw here (ground arith))

module _ {D : Type 0} (tbl : MinionTable) (site : Site) where
  -- On a well-formed table, for a connection whose id is an int64 and whose token was signed for it:
  -- `Connect` never panics, keeps the table well formed, and afterwards the token finds the connection.
  pub token_lookup-connect :
      (hex : Text) (conn : Conn) (h : LinkHub D)
      → IsTable h.minions
      → IsInt64 conn.claim.id
      → conn.claim.token ≡ sign_token hex conn.claim.id
      → (h' : LinkHub D) × (connect tbl site conn h ≡ some h')
        × IsTable h'.minions
        × (token_lookup h' conn.claim.token ≡ some (some conn))
  unfolding connect token_lookup
  token_lookup-connect hex conn h w small signed =
      let (t, e, v, law) = store-table h.minions (int64 conn.claim.id) conn w in
      let id : parse_int (parse_id conn.claim.token) ≡ conn.claim.id =
        ap (λ s. parse_int (parse_id s)) signed ∙ parse_id-sign_token hex conn.claim.id small in
      let here : load t (int64 conn.claim.id) ≡ some (some conn) =
        ground (arith, (load-table t (int64 conn.claim.id) v).0, law (int64 conn.claim.id)) in
      let h' : LinkHub D = record h {
        minions = t;
        rows = updated h.rows (tbl.update (offline_row conn.claim.id) (go_online site conn) h.rows);
      } in
      (
        h',
        rw (e, connect) refl,
        v,
        token_lookup_found h' conn.claim.token conn.claim.id conn id here refl,
      )

  -- A token finds no connection but one that carries that very token.
  pub token_lookup-authed :
      (h : LinkHub D) (token : Text) (conn : Conn)
      → token_lookup h token ≡ some (some conn)
      → conn.claim.token ≡ token
  unfolding token_lookup
  token_lookup-authed h token conn e = ground arith

  -- On a well-formed table, for a connection whose id is an int64 and whose token was signed for it:
  -- `Disconnect` never panics, keeps the table well formed, and afterwards the token finds nothing.
  pub token_lookup-disconnect :
      (hex : Text) (conn : Conn) (h : LinkHub D)
      → IsTable h.minions
      → IsInt64 conn.claim.id
      → conn.claim.token ≡ sign_token hex conn.claim.id
      → (h' : LinkHub D) × (disconnect tbl site conn h ≡ some h')
        × IsTable h'.minions
        × (token_lookup h' conn.claim.token ≡ some none)
  unfolding disconnect token_lookup
  token_lookup-disconnect hex conn h w small signed =
      let (t, e, v, law) = delete-table h.minions (int64 conn.claim.id) w in
      let id : parse_int (parse_id conn.claim.token) ≡ conn.claim.id =
        ap (λ s. parse_int (parse_id s)) signed ∙ parse_id-sign_token hex conn.claim.id small in
      let here : load t (int64 conn.claim.id) ≡ some none =
        ground (arith, (load-table t (int64 conn.claim.id) v).0, law (int64 conn.claim.id)) in
      let h' : LinkHub D = record h {
        minions = t;
        rows = updated h.rows (tbl.update (own_row site.broker_id conn.claim.id) go_offline h.rows);
      } in
      (h', rw (e, disconnect) refl, v, rw (id, token_lookup) (rw here refl))

-- Whom `Authorize` lets in, when `Intn(0xff)` keeps below 255: the row is neither deleted nor online,
-- and was found by its address, or is a row created now; the claim has its id, a mask from 1 to 255,
-- and a token signed for the id.
pub authorize-claimed :
    {D : Type 0} (tbl : MinionTable) (site : Site)
    (insert_tags : List MinionTag → List MinionTag → Result (List MinionTag)) (hex : Text)
    (pick : ℕ) (ident : Ident) (h h' : LinkHub D) (claim : Claim)
    → pick < 255
    → authorize tbl site insert_tags hex pick ident h ≡ (h', claimed claim)
    → (1 ≤ claim.mask)
      × (claim.mask ≤ 255)
      × ((m : Minion) × (((h' ≡ h) × (tbl.first (by_inet (inet_text ident)) h.rows ≡ ok m))
            ⊎ Inserted m h.rows h'.rows)
          × (m.status ≢ online)
          × (m.status ≢ deleted)
          × (claim.id ≡ m.id)
          × (claim.token ≡ sign_token hex m.id))
unfolding authorize claim_of rand_mask
authorize-claimed tbl site insert_tags hex pick ident h h' claim small e =
    elim (Result-cases (tbl.first (by_inet (inet_text ident)) h.rows)) [
      | inl (m, q) ↦ (
        ground arith,
        ground arith,
        (m, inl (ground arith, q), ground arith, ground arith, ground arith, ground arith),
      )
      | inr (inr (x, q)) ↦ absurd (ground arith)
      | inr (inl q) ↦ elim (Result-cases (tbl.create (new_minion site ident) h.rows)) [
        | inl ((m, t), r) ↦
            let (n, same, more) = tbl.create_ok (new_minion site ident) m h.rows t r in
            let left : t ≡ h'.rows = ground arith in
            (
              ground arith,
              ground arith,
              (m, inr (rw left at more), ground arith, ground arith, ground arith, ground arith),
            )
        | inr (inl r) ↦ absurd (ground arith)
        | inr (inr (x, r)) ↦ absurd (ground arith)
      ]
    ]
