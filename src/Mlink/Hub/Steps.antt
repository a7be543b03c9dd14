-- ===== src/Mlink/Hub/Steps.antt =====
-- bridge/mlink/hub.go: `Join` and `Knockout` of many agents at once. Each call of the registry and each
-- statement is one step, and the steps of several goroutines come in any order. A session is `pending`
-- from its registration to the update of its row, `serving` until `srv.Serve` returns, and `closing`
-- until the deferred `section.Del`, which runs after the deferred update of the row.
use ssoc_broker.Base.{
  ℕ, ◌≡◌, List, [], ◌∷◌, ◌++◌, Option, some, Bool, true, false, if◌then◌else◌, ◌==◌, Text,
}
use ssoc_broker.Base.Int.{ℤ}
use ssoc_broker.Base.Decimal.{format_int}
use ssoc_broker.Store.{Result, ok, missing, failed}
use ssoc_broker.Minion.{Minion, MinionTag, MinionTable}
use ssoc_broker.Mlink.SegmentMap
use ssoc_broker.Mlink.SegmentMap.{new_segment_map}
use ssoc_broker.Mlink.Hub.{
  Hub, Connect, connected, disconnected, offline_row, go_online, reset_tags, mark_offline,
  unregister, knockout,
}

pub data Phase : Type 0 where
  pending serving closing : Phase

-- The hub, and the calls of `Join` that have registered and not yet returned.
pub record System : Type 0 where
  pub hub : Hub
  pub live : List (Connect × Phase)

-- The database, and what the broker knows of itself.
pub record Site : Type 0 where
  pub tbl : MinionTable
  pub other : Text → Text
  pub delete_tags : (MinionTag → Bool) → List MinionTag → Result (List MinionTag)
  pub insert_tags : List MinionTag → List MinionTag → Result (List MinionTag)
  pub bid : ℤ
  pub broker_name : Text

module _ (site : Site) where
  -- The update of the row, and what follows where it changed a row.
  unfoldable pub attempt : ℕ → Connect → Hub → Hub × Bool
  unfolding reset_tags
  attempt now c h =
      elim (site.tbl.update (offline_row c.issue.id)
        (go_online site.tbl site.other site.delete_tags site.insert_tags site.bid site.broker_name
          now c.ident c.issue)
        h.minions) [
          | ok (n, t) ↦ if n == 0 then (record h { minions = t }, false) else (
            record h {
              minions = t;
              tags =
                  reset_tags site.tbl site.other site.delete_tags site.insert_tags site.bid
                    site.broker_name now c.ident c.issue h.tags;
              events = h.events ++ (connected c.issue.id ∷ []);
            },
            true,
          )
          | missing ↦ (h, false)
          | failed _ ↦ (h, false)
        ]

  abbrev pub settled : Bool → Phase
  settled true = serving
  settled false = closing

  -- The first deferred call, after the phase was told.
  abbrev pub farewell : Connect → Hub → Hub
  farewell c h =
      mark_offline site.tbl site.bid c.id
        (record h { events = h.events ++ (disconnected c.id ∷ []) })

  pub data Step (s : System) : System → Type 0 where
    -- `hub.section.Put` of a new connection stored it
    enter :
        (c : Connect) {section : SegmentMap.SegmentMap Connect}
        → c.id ≡ c.issue.id
        → SegmentMap.put s.hub.section (format_int c.id) c ≡ some (section, true)
        → Step s (record { hub = record s.hub { section = section }; live = (c, pending) ∷ s.live })
    settle :
        (now : ℕ) (c : Connect) (xs ys : List (Connect × Phase))
        → s.live ≡ xs ++ ((c, pending) ∷ ys)
        → Step s (record {
          hub = (attempt now c s.hub).0;
          live = xs ++ ((c, settled (attempt now c s.hub).1) ∷ ys);
        })
    finish :
        (c : Connect) (xs ys : List (Connect × Phase))
        → s.live ≡ xs ++ ((c, serving) ∷ ys)
        → Step s (record { hub = farewell c s.hub; live = xs ++ ((c, closing) ∷ ys) })
    release :
        (c : Connect) (xs ys : List (Connect × Phase)) {h : Hub}
        → s.live ≡ xs ++ ((c, closing) ∷ ys)
        → unregister c.id s.hub ≡ some h
        → Step s (record { hub = h; live = xs ++ ys })
    -- `Auth`, `ResetDB` and refused calls of `Join`: the registry stays
    elsewhere : (h : Hub) → h.section ≡ s.hub.section → Step s (record { hub = h; live = s.live })

  -- With `Knockout` by others.
  pub data Move (s : System) : System → Type 0 where
    step : {t : System} → Step s t → Move s t
    knock :
        (mid : ℤ) {h : Hub} {conn : Option Connect}
        → knockout mid s.hub ≡ some (h, conn)
        → Move s (record { hub = h; live = s.live })

-- Any number of steps, of the first kind or of both.
pub data Run (R : System → System → Type 0) (s : System) : System → Type 0 where
  stay : Run R s s
  later : {t u : System} → Run R s t → R t u → Run R s u

-- `LinkHub`: no connection in any slot.
abbrev pub initial : ℕ → List Minion → List MinionTag → System
initial slots rows tags = record {
  hub = record { minions = rows; tags = tags; section = new_segment_map slots; events = [] };
  live = [];
}
