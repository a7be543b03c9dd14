-- ===== src/Gateway/Refusals.antt =====
-- What a request to join leaves behind when it is refused, and what an answer of 202 means.
use ssoc_broker.Base.{
  ℕ, ◌*◌, ◌≡◌, refl, sym, subst, ap, Option, none, some, Bool, true, false, Text, take, inl, inr,
  ◌⊎◌, Bool-cases, Option-cases, arith, ◌==◌, ◌||◌,
}
use ssoc_broker.Store.{Result-cases, ok}
use ssoc_broker.Minion.{MinionTable}
use ssoc_broker.Mlink.Ident.{Ident, Issue}
use ssoc_broker.Mlink.SegmentMap.Laws.{IsValid}
use ssoc_broker.Mlink.Hub.{
  Hub, Auth, AuthError, accepted, refused, auth, create_new, lookup_unbound, lookup_by_machine_id,
  lookup_by_inet, lookup_or_create, judge,
}
use ssoc_broker.Mlink.Hub.Sessions.{Outcome, join_start-Outcome}
use ssoc_broker.Mlink.Hub.Steps.{Site}
use ssoc_broker.Gateway.{
  Request, Codec, Reply, problem, broken, answered, upgrade, admit, serve_http,
}

abbrev pub is_refusal : ℕ → Bool
is_refusal c = c == 400 || c == 403 || c == 409 || c == 429 || c == 500

Auth-cases :
    (a : Auth)
    → ((issue : Issue) × (a ≡ accepted issue))
      ⊎ ((code : ℕ) × (e : AuthError) × (a ≡ refused code e))
Auth-cases (accepted issue) = inl (issue, refl)
Auth-cases (refused code e) = inr (code, e, refl)

-- `Auth` leaves the registry alone, and refuses with one of four codes.
module _ (tbl : MinionTable) (other : Text → Text) (now : ℕ) (ident : Ident) (pick : ℕ)
    (fill : ℕ → Text) where
  lookup_unbound-section : (h : Hub) → (lookup_unbound tbl other now ident h).0.section ≡ h.section
  unfolding lookup_unbound create_new
  lookup_unbound-section h = ground arith

  lookup_or_create-section :
      (h : Hub) → (lookup_or_create tbl other now ident h).0.section ≡ h.section
  unfolding lookup_or_create lookup_by_machine_id lookup_by_inet create_new
  lookup_or_create-section h = ground (arith, lookup_unbound-section h)

  pub auth-section : (h : Hub) → (auth tbl other now ident pick fill h).0.section ≡ h.section
  unfolding auth
  auth-section h = ground (arith, lookup_or_create-section h)

  auth-code :
      (h : Hub) (code : ℕ) (e : AuthError)
      → (auth tbl other now ident pick fill h).1 ≡ refused code e
      → is_refusal code ≡ true
  unfolding auth judge
  auth-code h code e r = ground arith

module _ (site : Site) (codec : Codec) (req : Request) where
  -- What a reply means for the registry, and for the agents' table after the answer.
  abbrev pub Fate : Hub → Hub → Reply → Type 0
  Fate h h' (problem code) = (is_refusal code ≡ true) × (h'.section ≡ h.section)
  Fate h h' broken = (req.written ≡ false) × (h'.section ≡ h.section)
  Fate h h' (answered dat issue started) =
      (req.allowed ≡ true)
      × (req.hijacker ≡ true)
      × (req.hijacked ≡ true)
      × (req.written ≡ true)
      × (ident : Ident) × (h1 : Hub) × (codec.decrypt (take (100 * 1024) req.body) ≡ ok ident)
      × (codec.validate ident ≡ none)
      × (auth site.tbl site.other req.now ident req.pick codec.fill h ≡ (h1, accepted issue))
      × (codec.encrypt issue ≡ ok dat)
      × (h1.section ≡ h.section)
      × Outcome site.tbl site.other site.delete_tags site.insert_tags site.bid site.broker_name
          req.now ident issue h1 h' started

  abbrev Served : Hub → Option (Hub × Reply) → Type 0
  Served h out = (h' : Hub) × (r : Reply) × (out ≡ some (h', r)) × IsValid h'.section × Fate h h' r

  -- A refusal that leaves the hub `h'`.
  declined :
      (code : ℕ) (h h' : Hub) (out : Option (Hub × Reply))
      → is_refusal code ≡ true
      → h'.section ≡ h.section
      → IsValid h.section
      → out ≡ some (h', problem code)
      → Served h out
  declined code h h' out ok_code same w e = (h', problem code, e, rw same w, (ok_code, same))

  upgrade-Served :
      (ident : Ident) (issue : Issue) (dat : Text) (h h1 : Hub)
      → IsValid h.section
      → req.allowed ≡ true
      → codec.decrypt (take (100 * 1024) req.body) ≡ ok ident
      → codec.validate ident ≡ none
      → auth site.tbl site.other req.now ident req.pick codec.fill h ≡ (h1, accepted issue)
      → codec.encrypt issue ≡ ok dat
      → h1.section ≡ h.section
      → Served h (upgrade site codec req ident issue dat h1)
  unfolding upgrade
  upgrade-Served ident issue dat h h1 w let_in read valid judged sent same =
      elim (Bool-cases req.hijacker) [
        | inr plain ↦ declined 400 h h1 _ refl same w (rw (plain, upgrade) refl)
        | inl able ↦ elim (Bool-cases req.hijacked) [
          | inr lost ↦ declined 400 h h1 _ refl same w (rw (able, upgrade) (rw lost refl))
          | inl got ↦ elim (Bool-cases req.written) [
            | inr cut ↦
                (h1, broken, rw (able, upgrade) (rw got (rw cut refl)), rw same w, (cut, same))
            | inl put ↦
                let (h', started, ran, w', out) =
                  join_start-Outcome site.tbl site.other site.delete_tags site.insert_tags site.bid
                    site.broker_name req.now ident issue h1 (rw same w) in
                (
                  h',
                  answered dat issue started,
                  rw (able, upgrade) (rw got (rw put (rw ran refl))),
                  w',
                  (let_in, able, got, put, ident, h1, read, valid, judged, sent, same, out),
                )
          ]
        ]
      ]

  admit-Served :
      (ident : Ident) (h : Hub)
      → IsValid h.section
      → req.allowed ≡ true
      → codec.decrypt (take (100 * 1024) req.body) ≡ ok ident
      → codec.validate ident ≡ none
      → Served h (admit site codec req ident h)
  unfolding admit
  admit-Served ident h w let_in read valid =
      let judged = auth site.tbl site.other req.now ident req.pick codec.fill h in
      let same = auth-section site.tbl site.other req.now ident req.pick codec.fill h in
      elim (Auth-cases judged.1) [
        | inr (code, e, q) ↦
            declined code h judged.0 _
              (auth-code site.tbl site.other req.now ident req.pick codec.fill h code e q) same w
              (rw (q, admit) refl)
        | inl (issue, q) ↦ elim (Result-cases (codec.encrypt issue)) [
          | inl (dat, p) ↦
              rw (q, admit)
                (rw p (
                  upgrade-Served ident issue dat h judged.0 w let_in read valid
                    (ap (λ x. (judged.0, x)) q) p same))
          | inr (inl p) ↦ declined 500 h judged.0 _ refl same w (rw (q, admit) (rw p refl))
          | inr (inr (x, p)) ↦ declined 500 h judged.0 _ refl same w (rw (q, admit) (rw p refl))
        ]
      ]

  -- On a well-formed registry a request never panics and leaves it well formed. Every refusal has one of
  -- five codes and leaves the registry as it was. So does a connection that breaks before the answer,
  -- and only one whose answer could not be written counts as broken. An answer of 202 means that the
  -- request passed the limiter, was decoded, valid and accepted by `Auth`, that its connection was taken
  -- over and the issue written to it, and that `Join` then did what one of its outcomes says: it may
  -- still turn the agent away.
  pub serve_http-Fate :
      (h : Hub)
      → IsValid h.section
      → (h' : Hub) × (r : Reply) × (serve_http site codec req h ≡ some (h', r))
        × IsValid h'.section
        × Fate h h' r
  unfolding serve_http
  serve_http-Fate h w = elim (Bool-cases req.allowed) [
    | inr shut ↦ declined 429 h h _ refl refl w (rw (shut, serve_http) refl)
    | inl open_yet ↦ elim (Result-cases (codec.decrypt (take (100 * 1024) req.body))) [
      | inl (ident, q) ↦ elim (Option-cases (codec.validate ident)) [
        | inl valid ↦
            let same : serve_http site codec req h ≡ admit site codec req ident h =
              rw (open_yet, serve_http) (rw q (rw valid refl)) in
            subst (Served h) (sym same) (admit-Served ident h w open_yet q valid)
        | inr (x, bad) ↦
            declined 400 h h _ refl refl w (rw (open_yet, serve_http) (rw q (rw bad refl)))
      ]
      | inr (inl q) ↦ declined 400 h h _ refl refl w (rw (open_yet, serve_http) (rw q refl))
      | inr (inr (x, q)) ↦ declined 400 h h _ refl refl w (rw (open_yet, serve_http) (rw q refl))
    ]
  ]
