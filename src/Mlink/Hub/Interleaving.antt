-- ===== src/Mlink/Hub/Interleaving.antt =====
-- What holds in every reachable state of the hub, whatever order the steps of its callers take.
use ssoc_broker.Base.{
  ℕ, ◌≡◌, refl, sym, ap, subst, ◌∙◌, ◌↔◌, inl, inr, List, [], ◌∷◌, ◌++◌, Option, none, some, true,
  arith, Text, text_dec, ite, Elem, Option-cases, Bool-cases,
}
use ssoc_broker.Base.Int.{ℤ, pos, int_eq}
use ssoc_broker.Base.Decimal.{format_int, format_int-injective}
use ssoc_broker.Minion.{Minion, MinionTag}
use ssoc_broker.Mlink.SegmentMap
use ssoc_broker.Mlink.SegmentMap.Laws.{
  IsValid, contents, new_segment_map_lem, put-contents, del-contents,
}
use ssoc_broker.Mlink.Hub.{Hub, Connect, mark_offline, unregister, knockout, connect_ids}
use ssoc_broker.Mlink.Hub.Registry.{registered, OwnKey, Elem-connect_ids}
use ssoc_broker.Mlink.Hub.Steps.{
  Phase, pending, serving, closing, System, Site, attempt, farewell, Step, enter, settle, finish,
  release, elsewhere, Move, step, knock, Run, stay, later, initial,
}

abbrev Live : Type 0
Live = List (Connect × Phase)

-- A session that is live in some phase.
abbrev pub IsLive : Connect → List (Connect × Phase) → Type 0
IsLive c live = (p : Phase) × Elem {A = Connect × Phase} (c, p) live

pub record Inv (s : System) : Type 0 where
  pub valid : IsValid s.hub.section
  pub own : OwnKey s.hub
  pub backed : (k : Text) (c : Connect) → contents s.hub.section k ≡ some c → IsLive c s.live

-- A session in the middle changes its phase, or goes.
middle_kept :
    (c d : Connect) (p q r : Phase) (xs ys : Live)
    → Elem {A = Connect × Phase} (d, r) (xs ++ ((c, p) ∷ ys))
    → IsLive d (xs ++ ((c, q) ∷ ys))
middle_kept c d p q r [] ys (inl e) = (q, inl (ground arith))
middle_kept c d p q r [] ys (inr h) = (r, inr h)
middle_kept c d p q r (x ∷ xs) ys (inl e) = (r, inl e)
middle_kept c d p q r (x ∷ xs) ys (inr h) =
    let (r', h') = middle_kept c d p q r xs ys h in (r', inr h')

middle_gone :
    (c d : Connect) (p r : Phase) (xs ys : Live)
    → (c ≡ d → ⊥)
    → Elem {A = Connect × Phase} (d, r) (xs ++ ((c, p) ∷ ys))
    → Elem {A = Connect × Phase} (d, r) (xs ++ ys)
middle_gone c d p r [] ys n (inl e) = absurd (n (ground arith))
middle_gone c d p r [] ys n (inr h) = h
middle_gone c d p r (x ∷ xs) ys n (inl e) = inl e
middle_gone c d p r (x ∷ xs) ys n (inr h) = inr (middle_gone c d p r xs ys n h)

module _ (site : Site) where
  pub attempt-section :
      (now : ℕ) (c : Connect) (h : Hub) → (attempt site now c h).0.section ≡ h.section
  unfolding attempt
  attempt-section now c h = ground arith

  pub farewell-section : (c : Connect) (h : Hub) → (farewell site c h).section ≡ h.section
  unfolding mark_offline
  farewell-section c h = ground arith

-- The registry alone counts, and sessions that stay live.
Inv-same :
    (s : System) (h : Hub) (live : Live)
    → h.section ≡ s.hub.section
    → ((c : Connect) → IsLive c s.live → IsLive c live)
    → Inv s
    → Inv (record { hub = h; live = live })
Inv-same s h live same keeps v = record {
  valid = rw same v.valid;
  own = λ k c e. v.own k c (ap (λ m. contents m k) (sym same) ∙ e);
  backed = λ k c e. keeps c (v.backed k c (ap (λ m. contents m k) (sym same) ∙ e));
}

-- A removal from the registry, of an id whose session goes, or of any id.
Inv-fewer :
    (s : System) (h : Hub) (live : Live)
    → IsValid h.section
    → ((k : Text) (c : Connect) → contents h.section k ≡ some c → contents s.hub.section k ≡ some c)
    → ((k : Text) (c : Connect) → contents h.section k ≡ some c → IsLive c s.live → IsLive c live)
    → Inv s
    → Inv (record { hub = h; live = live })
Inv-fewer s h live valid less keeps v = record {
  valid = valid;
  own = λ k c e. v.own k c (less k c e);
  backed = λ k c e. keeps k c e (v.backed k c (less k c e));
}

-- What a `Put` that stored does to the contents.
pub enter-contents :
    (id : ℤ) (c : Connect) (h : Hub) (m : SegmentMap.SegmentMap Connect)
    → IsValid h.section
    → SegmentMap.put h.section (format_int id) c ≡ some (m, true)
    → IsValid m
      × (contents h.section (format_int id) ≡ none)
      × ((k : Text)
          → contents m k ≡ ite (text_dec (format_int id) k) (some c) (contents h.section k))
enter-contents id c h m w e =
    let (m', e', valid, law) = put-contents h.section (format_int id) c w in
    let same : m' ≡ m = ground (arith, sym e' ∙ e) in
    let free : contents h.section (format_int id) ≡ none =
      elim (Option-cases (contents h.section (format_int id))) [
        | inl n ↦ n
        | inr (d, held) ↦ absurd (ground (arith, sym e' ∙ e))
      ] in
    (rw same at valid, free, λ k. ap (λ x. contents x k) (sym same) ∙ law k ∙ rw free refl)

Inv-enter :
    (s : System) (c : Connect) (m : SegmentMap.SegmentMap Connect)
    → SegmentMap.put s.hub.section (format_int c.id) c ≡ some (m, true)
    → Inv s
    → Inv (record { hub = record s.hub { section = m }; live = (c, pending) ∷ s.live })
Inv-enter s c m e v =
    let (valid, free, law) = enter-contents c.id c s.hub m v.valid e in
    record {
      valid = valid;
      own = λ k d h. elim (text_dec (format_int c.id) k) [
        | yes p ↦ ground (arith, law k, ap format_int refl)
        | no n ↦ v.own k d (ground (arith, law k))
      ];
      backed = λ k d h. elim (text_dec (format_int c.id) k) [
        | yes p ↦ (pending, inl (ground (arith, law k)))
        | no n ↦ let (p, l) = v.backed k d (ground (arith, law k)) in (p, inr l)
      ];
    }

-- What `unregister` does to the contents.
unregister-contents :
    (id : ℤ) (h h' : Hub)
    → IsValid h.section
    → unregister id h ≡ some h'
    → IsValid h'.section
      × ((k : Text)
          → contents h'.section k ≡ ite (text_dec (format_int id) k) none (contents h.section k))
unfolding unregister
unregister-contents id h h' w e =
    let (m, q, v, law) = del-contents h.section (format_int id) w in
    let same : m ≡ h'.section = ground arith in
    (rw same at v, λ k. ap (λ x. contents x k) (sym same) ∙ law k)

-- A key that is still taken after a removal was taken before, and is another key.
left_over :
    {A : Type 0} (id : ℤ) (k : Text) (x y : Option A) (c : A)
    → x ≡ ite (text_dec (format_int id) k) none y
    → x ≡ some c
    → (y ≡ some c) × (format_int id ≡ k → ⊥)
left_over id k x y c e h = elim (text_dec (format_int id) k) [
  | yes p ↦ absurd (ground arith)
  | no n ↦ (ground arith, n)
]

Inv-release :
    (s : System) (c : Connect) (xs ys : Live) (h : Hub)
    → s.live ≡ xs ++ ((c, closing) ∷ ys)
    → unregister c.id s.hub ≡ some h
    → Inv s
    → Inv (record { hub = h; live = xs ++ ys })
Inv-release s c xs ys h e q v =
    let (valid, law) = unregister-contents c.id s.hub h v.valid q in
    Inv-fewer s h (xs ++ ys) valid (λ k d a. (left_over c.id k _ _ d (law k) a).0)
      (λ k d a l.
        let (was, other) = left_over c.id k _ _ d (law k) a in
        (
          l.0,
          middle_gone c d closing l.0 xs ys
              (λ same. other (ap (λ (x : Connect). format_int x.id) same ∙ v.own k d was))
              (subst (Elem {A = Connect × Phase} (d, l.0)) e l.1),
        ))
      v

knockout-contents :
    (mid : ℤ) (h h' : Hub) (conn : Option Connect)
    → IsValid h.section
    → knockout mid h ≡ some (h', conn)
    → IsValid h'.section
      × ((k : Text) (c : Connect) → contents h'.section k ≡ some c → contents h.section k ≡ some c)
unfolding knockout
knockout-contents mid h h' conn w e = elim (Bool-cases (int_eq mid (pos 0))) [
  | inl zero ↦
      let same : h ≡ h' = ground arith in
      (
        subst (λ (x : Hub). IsValid x.section) same w,
        λ k c a. ap (λ (x : Hub). contents x.section k) same ∙ a,
      )
  | inr other ↦
      let (m, q, v, law) = del-contents h.section (format_int mid) w in
      let same : m ≡ h'.section = ground arith in
      (
        rw same at v,
        λ k c a. (left_over mid k _ _ c (ap (λ x. contents x k) (sym same) ∙ law k) a).0,
      )
]

module _ (site : Site) where
  pub Step-Inv : {s t : System} → Step site s t → Inv s → Inv t
  Step-Inv {s} (enter c i e) v = Inv-enter s c _ e v
  Step-Inv {s} (settle now c xs ys e) v =
      Inv-same s _ _ (attempt-section site now c s.hub)
        (λ d l.
          middle_kept c d pending _ l.0 xs ys (subst (Elem {A = Connect × Phase} (d, l.0)) e l.1))
        v
  Step-Inv {s} (finish c xs ys e) v =
      Inv-same s _ _ (farewell-section site c s.hub)
        (λ d l.
          middle_kept c d serving _ l.0 xs ys (subst (Elem {A = Connect × Phase} (d, l.0)) e l.1))
        v
  Step-Inv {s} (release c xs ys e q) v = Inv-release s c xs ys _ e q v
  Step-Inv {s} (elsewhere h same) v = Inv-same s h s.live same (λ d l. l) v

  pub Move-Inv : {s t : System} → Move site s t → Inv s → Inv t
  Move-Inv (step st) v = Step-Inv st v
  Move-Inv {s} (knock mid e) v =
      let (valid, less) = knockout-contents mid s.hub _ _ v.valid e in
      Inv-fewer s _ s.live valid less (λ k d a l. l) v

  pub Run-Inv : {s t : System} → Run (Move site) s t → Inv s → Inv t
  Run-Inv stay v = v
  Run-Inv (later r m) v = Move-Inv m (Run-Inv r v)

pub initial-Inv :
    (slots : ℕ) (rows : List Minion) (tags : List MinionTag) → Inv (initial slots rows tags)
initial-Inv slots rows tags =
    let (valid, none_there) = new_segment_map_lem {C = Connect} slots in
    record {
      valid = valid;
      own = λ k c e. absurd (ground (arith, none_there k));
      backed = λ k c e. absurd (ground (arith, none_there k));
    }

-- In every state that `Join` and `Knockout` reach from an empty registry, in any order of their steps:
-- the registry is well formed, and whatever it holds under an agent's id is the connection of a call
-- of `Join` for that agent that has not returned. So `ConnectIDs` lists exactly the ids that are
-- registered, and each of them has such a call.
pub reachable-connect_ids :
    (site : Site) (slots : ℕ) (rows : List Minion) (tags : List MinionTag) (s : System) (i : ℤ)
    → Run (Move site) (initial slots rows tags) s
    → IsValid s.hub.section
      × (Elem i (connect_ids s.hub) ↔ ((c : Connect) × (registered s.hub i ≡ some c)))
      × ((c : Connect) → registered s.hub i ≡ some c → (c.id ≡ i) × IsLive c s.live)
reachable-connect_ids site slots rows tags s i r =
    let v = Run-Inv site r (initial-Inv slots rows tags) in
    (
      v.valid,
      Elem-connect_ids s.hub i v.valid v.own,
      λ c e. (format_int-injective c.id i (v.own (format_int i) c e), v.backed (format_int i) c e),
    )
