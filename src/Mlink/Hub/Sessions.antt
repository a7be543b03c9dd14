-- ===== src/Mlink/Hub/Sessions.antt =====
-- A connection's life: what `Join` does before and after it serves.
use ssoc_broker.Base.{
  ℕ, ◌≡◌, refl, sym, ap, ◌∙◌, subst, ◌≢◌, ◌⊎◌, ite, inl, inr, List, [], ◌∷◌, ◌++◌, Option, none,
  some, Bool, ◌==◌, ◌&&◌, arith, Text, Bool-cases, Option-cases,
}
use ssoc_broker.Base.Int.{ℤ, ℤ_discrete, int_eq}
use ssoc_broker.Base.Decimal.{format_int}
use ssoc_broker.Store.{Result, Result-cases, ok, missing, failed, find, update_where}
use ssoc_broker.Store.Rows.{update_where-none}
use ssoc_broker.Minion.{offline, is_online, Minion, MinionTag, MinionTable}
use ssoc_broker.Mlink.Ident.{Ident, Issue}
use ssoc_broker.Mlink.SegmentMap.Laws.{IsValid, put-contents, del-contents}
use ssoc_broker.Mlink.Hub.{
  Hub, Connect, Started, repeated, connected, taken, dropped, serving, offline_row, online_row,
  go_offline, mark_offline, join_end, disconnected, go_online, reset_tags, unregister, mark_online,
  join_start,
}
use ssoc_broker.Mlink.Hub.Registry.{registered, without, format_key}

-- The deferred `Del` takes out what stands under the id, and nothing else.
pub unregister-registered :
    (id : ℤ) (h : Hub)
    → IsValid h.section
    → (h' : Hub) × (unregister id h ≡ some h')
      × IsValid h'.section
      × (h'.minions ≡ h.minions)
      × ((j : ℤ) → registered h' j ≡ without id (registered h) j)
unfolding unregister
unregister-registered id h w =
    let (s, e, v, law) = del-contents h.section (format_int id) w in
    (
      record h { section = s },
      rw (e, unregister) refl,
      v,
      refl,
      λ j. law (format_int j) ∙ format_key id j _ _,
    )

module _ (tbl : MinionTable) (other : Text → Text)
    (delete_tags : (MinionTag → Bool) → List MinionTag → Result (List MinionTag))
    (insert_tags : List MinionTag → List MinionTag → Result (List MinionTag)) (bid : ℤ)
    (broker_name : Text) (now : ℕ) (ident : Ident) (issue : Issue) where
  abbrev pub session : Connect
  session = record { id = issue.id; ident = ident; issue = issue }

  abbrev pub marked : List Minion → List Minion
  marked =
      update_where (offline_row issue.id)
        (go_online tbl other delete_tags insert_tags bid broker_name now ident issue)

  -- What each outcome of `Join`'s first half means for the registry and the table of agents.
  abbrev pub Outcome : Hub → Hub → Started → Type 0
  Outcome h h' taken =
      ((c : Connect) × (registered h issue.id ≡ some c))
      × ((j : ℤ) → registered h' j ≡ registered h j)
      × (h'.minions ≡ h.minions)
  Outcome h h' dropped =
      (registered h issue.id ≡ none)
      × ((j : ℤ) → registered h' j ≡ registered h j)
      × (h'.minions ≡ h.minions)
  Outcome h h' serving =
      (registered h issue.id ≡ none)
      × ((j : ℤ) → registered h' j ≡ ite (ℤ_discrete issue.id j) (some session) (registered h j))
      × (h'.minions ≡ marked h.minions)
      × ((m : Minion) × (find (offline_row issue.id) h.minions ≡ some m))

  abbrev start : Hub → Option (Hub × Started)
  start h = join_start tbl other delete_tags insert_tags bid broker_name now ident issue h

  abbrev marking : Hub → Option (Hub × Started)
  marking h = mark_online tbl other delete_tags insert_tags bid broker_name now ident issue h

  -- `h2` is `h` with the session registered: to take it back gives `h`.
  back_out :
      (h h2 : Hub)
      → IsValid h2.section
      → h2.minions ≡ h.minions
      → registered h issue.id ≡ none
      → ((j : ℤ) → registered h2 j ≡ ite (ℤ_discrete issue.id j) (some session) (registered h j))
      → (h' : Hub) × (unregister issue.id h2 ≡ some h') × IsValid h'.section × Outcome h h' dropped
  back_out h h2 w same free law =
      let (h', e, v, kept, gone) = unregister-registered issue.id h2 w in
      (
        h',
        e,
        v,
        (
          free,
          (λ j. elim (ℤ_discrete issue.id j) [
            | yes p ↦ ground (arith, gone j, ap (λ (i : ℤ). registered h i) p)
            | no n ↦ ground (arith, gone j, law j)
          ]),
          kept ∙ same,
        ),
      )

  mark_online-Outcome :
      (h h1 : Hub)
      → IsValid h1.section
      → h1.minions ≡ h.minions
      → registered h issue.id ≡ none
      → ((j : ℤ) → registered h1 j ≡ ite (ℤ_discrete issue.id j) (some session) (registered h j))
      → (h' : Hub) × (o : Started) × (marking h1 ≡ some (h', o))
        × IsValid h'.section
        × Outcome h h' o
  unfolding mark_online
  mark_online-Outcome h h1 w same free law =
      elim (Result-cases (tbl.update fits online_now h1.minions)) [
        | inl ((n, t), q) ↦
            let left : t ≡ update_where fits online_now h1.minions =
              tbl.update_ok fits online_now n h1.minions t q in
            elim (Bool-cases (n == 0)) [
              | inl zero ↦
                  let still : t ≡ h1.minions =
                    left
                    ∙ update_where-none fits online_now h1.minions
                        (untouched n t q (ground arith)) in
                  let (h', e, v, out) =
                    back_out h (record h1 { minions = t }) w (still ∙ same) free law in
                  (h', dropped, rw (q, mark_online) (rw zero (rw e refl)), v, out)
              | inr some_rows ↦ (
                record h1 {
                  minions = t;
                  tags =
                      reset_tags tbl other delete_tags insert_tags bid broker_name now ident issue
                        h1.tags;
                  events = h1.events ++ (connected issue.id ∷ []);
                },
                serving,
                rw (q, mark_online) (rw some_rows refl),
                w,
                (
                  free,
                  law,
                  left ∙ ap (update_where fits online_now) same,
                  row n t q (ground arith),
                ),
              )
            ]
        | inr (inl q) ↦
            let (h', e, v, out) = back_out h h1 w same free law in
            (h', dropped, rw (q, mark_online) (rw e refl), v, out)
        | inr (inr (x, q)) ↦
            let (h', e, v, out) = back_out h h1 w same free law in
            (h', dropped, rw (q, mark_online) (rw e refl), v, out)
      ]
    where
      fits : Minion → Bool
      fits = offline_row issue.id

      online_now : Minion → Minion
      online_now = go_online tbl other delete_tags insert_tags bid broker_name now ident issue

      untouched :
          (n : ℕ) (t : List Minion)
          → tbl.update fits online_now h1.minions ≡ ok (n, t)
          → n ≡ 0
          → find fits h1.minions ≡ none
      untouched n t q zero = elim (Option-cases (find fits h1.minions)) [
        | inl e ↦ e
        | inr (m, e) ↦
            absurd
              (tbl.update_some fits online_now n h1.minions t m (λ x p c. ground arith) q e zero)
      ]

      row :
          (n : ℕ) (t : List Minion)
          → tbl.update fits online_now h1.minions ≡ ok (n, t)
          → n ≢ 0
          → (m : Minion) × (find fits h.minions ≡ some m)
      row n t q some_rows = elim (Option-cases (find fits h1.minions)) [
        | inl e ↦ absurd (some_rows (tbl.update_none fits online_now n h1.minions t q e))
        | inr (m, e) ↦ (m, ap (find fits) (sym same) ∙ e)
      ]

  -- On a well-formed registry `Join` never panics before it serves, and keeps the registry well
  -- formed. If the id is taken, the registry and the table of agents stay as they were. If it is free
  -- but the row cannot be marked online (the statement fails, or no offline row has the id), the
  -- registration is taken back and both are as they were. Otherwise the connection is served: the
  -- session stands under its id and nothing else moved in the registry, there was an offline row, and
  -- the offline rows of that id are online.
  pub join_start-Outcome :
      (h : Hub)
      → IsValid h.section
      → (h' : Hub) × (o : Started) × (start h ≡ some (h', o)) × IsValid h'.section × Outcome h h' o
  unfolding join_start
  join_start-Outcome h w =
      let (s, e, v, law) = put-contents h.section (format_int issue.id) session w in
      elim (Option-cases (registered h issue.id)) [
        | inl free ↦
            let (h', o, e', v', out) =
              mark_online-Outcome h (record h { section = s }) v refl free
                (λ j. law (format_int j) ∙ format_key issue.id j _ _ ∙ rw free refl) in
            (h', o, rw (e, join_start) (rw free e'), v', out)
        | inr (c, held) ↦ (
          record h { section = s; events = h.events ++ (repeated issue.id ∷ []) },
          taken,
          rw (e, join_start) (rw held refl),
          v,
          (
            (c, held),
            (λ j. law (format_int j) ∙ format_key issue.id j _ _ ∙ ground (arith, held)),
            refl,
          ),
        )
      ]

module _ (tbl : MinionTable) (bid id : ℤ) where
  mark_offline-section : (h : Hub) → (mark_offline tbl bid id h).section ≡ h.section
  unfolding mark_offline
  mark_offline-section h = ground arith

  -- The rows of the agent that this broker has online, and such a row afterwards.
  abbrev pub here_online : Minion → Bool
  here_online m = int_eq m.broker_id bid && is_online m.status && int_eq m.id id

  abbrev pub gone_offline : Minion → Minion
  gone_offline m = record m { status = offline }

  -- The rows after the statement that marks the agent offline, by how the statement ended.
  abbrev pub MarkedOffline : List Minion → List Minion → Type 0
  MarkedOffline t t' =
      ((n : ℕ) × (tbl.update here_online gone_offline t ≡ ok (n, t'))
        × (t' ≡ update_where here_online gone_offline t))
      ⊎ ((tbl.update here_online gone_offline t ≡ missing) × (t' ≡ t))
      ⊎ ((e : Text) × (tbl.update here_online gone_offline t ≡ failed e) × (t' ≡ t))

  mark_offline-MarkedOffline :
      (h : Hub) → MarkedOffline h.minions (mark_offline tbl bid id h).minions
  unfolding mark_offline
  mark_offline-MarkedOffline h =
      elim (Result-cases (tbl.update (online_row bid id) go_offline h.minions)) [
        | inl ((n, t), q) ↦
            let left = tbl.update_ok (online_row bid id) go_offline n h.minions t q in
            rw (q, mark_offline) (inl (n, refl, left))
        | inr (inl q) ↦ rw (q, mark_offline) (inr (inl (refl, refl)))
        | inr (inr (x, q)) ↦ rw (q, mark_offline) (inr (inr (x, refl, refl)))
      ]

  -- On a well-formed registry the end of `Join` never panics and frees the id, and no other id. If the
  -- statement that marks the agent offline succeeds, the rows of that id that this broker has online go
  -- offline and no other row changes; if it fails, the table is unchanged.
  pub join_end-registered :
      (h : Hub)
      → IsValid h.section
      → (h' : Hub) × (join_end tbl bid id h ≡ some h')
        × IsValid h'.section
        × ((j : ℤ) → registered h' j ≡ without id (registered h) j)
        × MarkedOffline h.minions h'.minions
  unfolding join_end
  join_end-registered h w =
      let h1 : Hub = record h { events = h.events ++ (disconnected id ∷ []) } in
      let h2 : Hub = mark_offline tbl bid id h1 in
      let same : h2.section ≡ h.section = mark_offline-section h1 in
      let (h', e, v, kept, gone) = unregister-registered id h2 (rw same w) in
      (
        h',
        e,
        v,
        (λ j. ground (arith, gone j, same)),
        subst (MarkedOffline h.minions) (sym kept) (mark_offline-MarkedOffline h1),
      )
