-- ===== src/Mlink/Hub/Race.antt =====
-- What `Knockout` makes possible: the deferred `section.Del` of a call of `Join` goes by the id alone, and
-- takes out the connection of a later call.
use ssoc_broker.Base.{
  ℕ, ◌≡◌, refl, sym, ap, ◌∙◌, List, [], ◌∷◌, inl, if_pos, Option, none, some, Bool, true, false,
  arith, Elem, is_none,
}
use ssoc_broker.Base.Int.{ℤ_discrete}
use ssoc_broker.Base.Decimal.{format_int}
use ssoc_broker.Mlink.SegmentMap
use ssoc_broker.Mlink.SegmentMap.Laws.{IsValid, contents, put-contents}
use ssoc_broker.Mlink.Hub.{Hub, Connect, Started, dropped, serving, mark_online, unregister}
use ssoc_broker.Mlink.Hub.Registry.{registered}
use ssoc_broker.Mlink.Hub.Sessions.{unregister-registered}
use ssoc_broker.Mlink.Hub.Steps
use ssoc_broker.Mlink.Hub.Steps.{
  Phase, pending, closing, System, Site, attempt, settled, Step, enter, settle, release, Move, Run,
  stay, later, step,
}
use ssoc_broker.Mlink.Hub.Interleaving.{attempt-section}

-- The steps are the ones of `Join`: `attempt` is its update, and a failure takes the registration back.
pub mark_online-attempt :
    (site : Site) (now : ℕ) (c : Connect) (h : Hub)
    → mark_online site.tbl site.other site.delete_tags site.insert_tags site.bid site.broker_name
        now c.ident c.issue h
      ≡ elim (attempt site now c h).1 as (λ _. Option (Hub × Started)) [
        | true ↦ some ((attempt site now c h).0, serving)
        | false ↦ elim (unregister c.issue.id (attempt site now c h).0) [
          | none ↦ none
          | some h' ↦ some (h', dropped)
        ]
      ]
unfolding mark_online attempt
mark_online-attempt site now c h = ground arith

-- A call for an agent was knocked out: it is closing, its id is free. If a second call for the agent
-- registers and its row can be marked online before the first has returned, then the first call's
-- removal leaves the second one serving with its id not registered.
pub knocked_out_late :
    (site : Site) (now : ℕ) (c d : Connect) (s : System) (ys : List (Connect × Phase))
    → IsValid s.hub.section
    → s.live ≡ (c, closing) ∷ ys
    → registered s.hub c.id ≡ none
    → d.id ≡ c.id
    → d.id ≡ d.issue.id
    → ((h : Hub) → h.minions ≡ s.hub.minions → (attempt site now d h).1 ≡ true)
    → (t : System) × Run (Step site) s t
      × Elem {A = Connect × Phase} (d, Steps.serving) t.live
      × (registered t.hub d.id ≡ none)
knocked_out_late site now c d s ys w live free same own up =
    let (m, e, v, law) = put-contents s.hub.section (format_int d.id) d w in
    let key_free : contents s.hub.section (format_int d.id) ≡ none =
      ap (registered s.hub) same ∙ free in
    let stored : SegmentMap.put s.hub.section (format_int d.id) d ≡ some (m, true) =
      e ∙ ap (λ x. some (m, is_none x)) key_free in
    let h1 : Hub = record s.hub { section = m } in
    let h2 : Hub = (attempt site now d h1).0 in
    let b : Bool = (attempt site now d h1).1 in
    let kept : IsValid h2.section = rw (attempt-section site now d h1) v in
    let (h3, gone, w3, rows, law3) = unregister-registered c.id h2 kept in
    let s1 : System = record { hub = h1; live = (d, pending) ∷ s.live } in
    let s2 : System = record { hub = h2; live = (d, settled site b) ∷ s.live } in
    let s3 : System = record { hub = h3; live = (d, settled site b) ∷ ys } in
    let enters : Step site s s1 = enter d own stored in
    let settles : Step site s1 s2 = settle now d [] s.live refl in
    let releases : Step site s2 s3 =
      release c ((d, settled site b) ∷ []) ys
        (ap (λ (l : List (Connect × Phase)). (d, settled site b) ∷ l) live) gone in
    (
      s3,
      later (later (later stay enters) settles) releases,
      inl (ap (λ x. (d, settled site x)) (up h1 refl)),
      law3 d.id ∙ if_pos (ℤ_discrete c.id d.id) (sym same) _ _,
    )
