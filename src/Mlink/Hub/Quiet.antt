-- ===== src/Mlink/Hub/Quiet.antt =====
-- While nobody is knocked out, the registry is exactly the calls of `Join` that have not returned.
use ssoc_broker.Base.{
  ℕ, ◌≡◌, refl, sym, ap, subst, ◌∙◌, ◌↔◌, inl, inr, List, [], ◌∷◌, ◌++◌, some, true, arith, ite,
}
use ssoc_broker.Base.Int.{ℤ, ℤ_discrete}
use ssoc_broker.Base.Decimal.{format_int, format_int-injective}
use ssoc_broker.Minion.{Minion, MinionTag}
use ssoc_broker.Mlink.SegmentMap
use ssoc_broker.Mlink.SegmentMap.Laws.{contents}
use ssoc_broker.Mlink.Hub.{Hub, Connect, unregister}
use ssoc_broker.Mlink.Hub.Registry.{registered, format_key}
use ssoc_broker.Mlink.Hub.Sessions.{unregister-registered}
use ssoc_broker.Mlink.Hub.Steps.{
  Phase, pending, serving, closing, System, Site, Step, enter, settle, finish, release, elsewhere,
  Run, stay, later, initial,
}
use ssoc_broker.Mlink.Hub.Interleaving.{
  IsLive, Inv, Step-Inv, initial-Inv, attempt-section, farewell-section, enter-contents,
}

abbrev Live : Type 0
Live = List (Connect × Phase)

-- No two sessions have one id.
abbrev pub UniqueIds : Live → Type 0
UniqueIds [] = Unit
UniqueIds ((c, p) ∷ live) = ((d : Connect) → IsLive d live → d.id ≡ c.id → ⊥) × UniqueIds live

IsLive-middle : (c : Connect) (p : Phase) (xs ys : Live) → IsLive c (xs ++ ((c, p) ∷ ys))
IsLive-middle c p [] ys = (p, inl refl)
IsLive-middle c p (x ∷ xs) ys = let (q, h) = IsLive-middle c p xs ys in (q, inr h)

IsLive-more :
    (c d : Connect) (p : Phase) (xs ys : Live)
    → IsLive d (xs ++ ys)
    → IsLive d (xs ++ ((c, p) ∷ ys))
IsLive-more c d p [] ys (r, h) = (r, inr h)
IsLive-more c d p (x ∷ xs) ys (r, inl e) = (r, inl e)
IsLive-more c d p (x ∷ xs) ys (r, inr h) = let (q, g) = IsLive-more c d p xs ys (r, h) in (q, inr g)

IsLive-phase :
    (c d : Connect) (p q : Phase) (xs ys : Live)
    → IsLive d (xs ++ ((c, p) ∷ ys))
    → IsLive d (xs ++ ((c, q) ∷ ys))
IsLive-phase c d p q [] ys (r, inl e) = (q, inl (ground arith))
IsLive-phase c d p q [] ys (r, inr h) = (r, inr h)
IsLive-phase c d p q (x ∷ xs) ys (r, inl e) = (r, inl e)
IsLive-phase c d p q (x ∷ xs) ys (r, inr h) =
    let (r', h') = IsLive-phase c d p q xs ys (r, h) in (r', inr h')

UniqueIds-phase :
    (c : Connect) (p q : Phase) (xs ys : Live)
    → UniqueIds (xs ++ ((c, p) ∷ ys))
    → UniqueIds (xs ++ ((c, q) ∷ ys))
UniqueIds-phase c p q [] ys u = u
UniqueIds-phase c p q ((d, r) ∷ xs) ys u =
    ((λ x l. u.0 x (IsLive-phase c x q p xs ys l)), UniqueIds-phase c p q xs ys u.1)

UniqueIds-gone :
    (c : Connect) (p : Phase) (xs ys : Live)
    → UniqueIds (xs ++ ((c, p) ∷ ys))
    → UniqueIds (xs ++ ys) × ((d : Connect) → IsLive d (xs ++ ys) → d.id ≡ c.id → ⊥)
UniqueIds-gone c p [] ys u = (u.1, u.0)
UniqueIds-gone c p ((d, r) ∷ xs) ys u =
    let (rest, apart) = UniqueIds-gone c p xs ys u.1 in
    (((λ x l. u.0 x (IsLive-more c x p xs ys l)), rest), λ x l same. other x l same apart)
  where
    other :
        (x : Connect)
        → IsLive x ((d, r) ∷ (xs ++ ys))
        → x.id ≡ c.id
        → ((y : Connect) → IsLive y (xs ++ ys) → y.id ≡ c.id → ⊥)
        → ⊥
    other x (q, inl e) same apart =
        u.0 c (IsLive-middle c p xs ys) (sym same ∙ ap (λ (z : Connect × Phase). z.0.id) (sym e))
    other x (q, inr h) same apart = apart x (q, h) same

-- Every live session is the one that the registry holds under its id.
pub record Exact (s : System) : Type 0 where
  pub inv : Inv s
  pub unique : UniqueIds s.live
  pub listed : (c : Connect) → IsLive c s.live → registered s.hub c.id ≡ some c

Exact-phase :
    (s : System) (h : Hub) (c : Connect) (p q : Phase) (xs ys : Live)
    → h.section ≡ s.hub.section
    → s.live ≡ xs ++ ((c, p) ∷ ys)
    → Inv (record { hub = h; live = xs ++ ((c, q) ∷ ys) })
    → Exact s
    → Exact (record { hub = h; live = xs ++ ((c, q) ∷ ys) })
Exact-phase s h c p q xs ys same e inv v = record {
  inv = inv;
  unique = UniqueIds-phase c p q xs ys (subst UniqueIds e v.unique);
  listed = λ d l.
      ap (λ m. contents m (format_int d.id)) same
      ∙ v.listed d (subst (IsLive d) (sym e) (IsLive-phase c d q p xs ys l));
}

Exact-enter :
    (s : System) (c : Connect) (m : SegmentMap.SegmentMap Connect)
    → SegmentMap.put s.hub.section (format_int c.id) c ≡ some (m, true)
    → Inv (record { hub = record s.hub { section = m }; live = (c, pending) ∷ s.live })
    → Exact s
    → Exact (record { hub = record s.hub { section = m }; live = (c, pending) ∷ s.live })
Exact-enter s c m e inv v =
    let (valid, free, law) = enter-contents c.id c s.hub m v.inv.valid e in
    let law' : (j : ℤ)
        → contents m (format_int j) ≡ ite (ℤ_discrete c.id j) (some c) (registered s.hub j) =
      λ j. law (format_int j) ∙ format_key c.id j _ _ in
    let new_id : (d : Connect) → IsLive d s.live → d.id ≡ c.id → ⊥ =
      λ d l same. absurd (ground (arith, v.listed d l, free, ap (λ j. registered s.hub j) same)) in
    record { inv = inv; unique = (new_id, v.unique); listed = λ d l. among d l law' new_id }
  where
    among :
        (d : Connect)
        → IsLive d ((c, pending) ∷ s.live)
        → ((j : ℤ)
            → contents m (format_int j) ≡ ite (ℤ_discrete c.id j) (some c) (registered s.hub j))
        → ((x : Connect) → IsLive x s.live → x.id ≡ c.id → ⊥)
        → contents m (format_int d.id) ≡ some d
    among d (p, inl e) law' new_id = ground (arith, law' d.id, ap (λ (z : Connect × Phase). z.0) e)
    among d (p, inr h) law' new_id = elim (ℤ_discrete c.id d.id) [
      | yes same ↦ absurd (new_id d (p, h) (sym same))
      | no n ↦ ground (arith, law' d.id, v.listed d (p, h))
    ]

Exact-release :
    (s : System) (c : Connect) (xs ys : Live) (h : Hub)
    → s.live ≡ xs ++ ((c, closing) ∷ ys)
    → unregister c.id s.hub ≡ some h
    → Inv (record { hub = h; live = xs ++ ys })
    → Exact s
    → Exact (record { hub = h; live = xs ++ ys })
Exact-release s c xs ys h e q inv v =
    let (h', q', w, same, law) = unregister-registered c.id s.hub v.inv.valid in
    let this : h' ≡ h = ground (arith, sym q' ∙ q) in
    let (rest, apart) = UniqueIds-gone c closing xs ys (subst UniqueIds e v.unique) in
    record {
      inv = inv;
      unique = rest;
      listed = λ d l. elim (ℤ_discrete c.id d.id) [
        | yes k ↦ absurd (apart d l (sym k))
        | no n ↦
            let kept : registered s.hub d.id ≡ some d =
              v.listed d (subst (IsLive d) (sym e) (IsLive-more c d closing xs ys l)) in
            ground (arith, ap (λ (x : Hub). registered x d.id) this, law d.id)
      ];
    }

module _ (site : Site) where
  Step-Exact : {s t : System} → Step site s t → Exact s → Exact t
  Step-Exact {s} (enter c i e) v = Exact-enter s c _ e (Step-Inv site (enter c i e) v.inv) v
  Step-Exact {s} (settle now c xs ys e) v =
      Exact-phase s _ c pending _ xs ys (attempt-section site now c s.hub) e
        (Step-Inv site (settle now c xs ys e) v.inv) v
  Step-Exact {s} (finish c xs ys e) v =
      Exact-phase s _ c serving _ xs ys (farewell-section site c s.hub) e
        (Step-Inv site (finish c xs ys e) v.inv) v
  Step-Exact {s} (release c xs ys e q) v =
      Exact-release s c xs ys _ e q (Step-Inv site (release c xs ys e q) v.inv) v
  Step-Exact {s} (elsewhere h same) v = record {
    inv = Step-Inv site (elsewhere h same) v.inv;
    unique = v.unique;
    listed = λ c l. ap (λ m. contents m (format_int c.id)) same ∙ v.listed c l;
  }

  Run-Exact : {s t : System} → Run (Step site) s t → Exact s → Exact t
  Run-Exact stay v = v
  Run-Exact (later r st) v = Step-Exact st (Run-Exact r v)

-- While no step is a `Knockout`, in every state that is reached from an empty registry: an agent's id
-- is registered exactly while a call of `Join` for it has not returned, with the connection of that
-- call, and no two such calls have one id.
pub reachable-registered :
    (site : Site) (slots : ℕ) (rows : List Minion) (tags : List MinionTag) (s : System)
    → Run (Step site) (initial slots rows tags) s
    → ((i : ℤ) (c : Connect) → (registered s.hub i ≡ some c) ↔ ((c.id ≡ i) × IsLive c s.live))
      × UniqueIds s.live
reachable-registered site slots rows tags s r =
    let start = initial-Inv slots rows tags in
    let v = Run-Exact site r (record { inv = start; unique = tt; listed = λ c l. elim l.1 [ ] }) in
    (
      (λ i c. (
        (λ e. (
          format_int-injective c.id i (v.inv.own (format_int i) c e),
          v.inv.backed (format_int i) c e,
        )),
        λ h. subst (λ j. registered s.hub j ≡ some c) h.0 (v.listed c h.1),
      )),
      v.unique,
    )
