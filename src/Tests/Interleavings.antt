-- ===== src/Tests/Interleavings.antt =====
-- bridge/mlink and bridge/gateway with an agent that registers in an empty registry.
use ssoc_broker.Base.{
  ◌≡◌, refl, ap, ◌∙◌, ◌↔◌, [], ◌∷◌, none, some, true, Elem, codes, is_none, text_eq, ◌||◌, ◌&&◌,
  not, if◌then◌else◌,
}
use ssoc_broker.Base.Int.{ℤ, pos, ℤ_discrete, int_eq}
use ssoc_broker.Base.Decimal.{format_int}
use ssoc_broker.Store.{ok}
use ssoc_broker.Mlink.SegmentMap
use ssoc_broker.Mlink.SegmentMap.Laws.{IsValid, new_segment_map_lem, put-contents}
use ssoc_broker.Mlink.Hub.{Hub, Connect, connect_ids}
use ssoc_broker.Mlink.Hub.Registry.{registered, without}
use ssoc_broker.Mlink.Hub.Steps
use ssoc_broker.Mlink.Hub.Steps.{
  Phase, pending, closing, System, Site, attempt, Step, enter, step, Move, Run, stay, later,
  initial,
}
use ssoc_broker.Mlink.Hub.Interleaving.{IsLive, reachable-connect_ids}
use ssoc_broker.Mlink.Hub.Quiet.{UniqueIds, reachable-registered}
use ssoc_broker.Mlink.Hub.Race.{knocked_out_late}
use ssoc_broker.Gateway.{Request, Codec, Reply, serve_http}
use ssoc_broker.Gateway.Refusals.{Fate, serve_http-Fate}
use ssoc_broker.Mgtsvc.Notices.{run_command}
use ssoc_broker.Mgtsvc.Outcomes.{run_command-registered}
use ssoc_broker.Tests.Registry.{
  ident7, conn7, no_one, no_one-IsValid, row7, agents, keep_tags, put_tags, hub0, hub1, one-IsValid,
}

abbrev site : Site
site = record {
  tbl = agents;
  other = λ s. s;
  delete_tags = keep_tags;
  insert_tags = put_tags;
  bid = pos 1;
  broker_name = codes "b";
}

abbrev section7 : SegmentMap.SegmentMap Connect
section7 = (put-contents no_one (format_int (pos 7)) conn7 no_one-IsValid).0

abbrev joined : System
joined = record {
  hub = record { minions = row7 ∷ []; tags = []; section = section7; events = [] };
  live = (conn7, pending) ∷ [];
}

put_7 : SegmentMap.put no_one (format_int (pos 7)) conn7 ≡ some (section7, true)
put_7 =
    (put-contents no_one (format_int (pos 7)) conn7 no_one-IsValid).1
    ∙ ap (λ o. some (section7, is_none o))
        ((new_segment_map_lem {C = Connect} 4).1 (format_int (pos 7)))

enters : Step site (initial 4 (row7 ∷ []) []) joined
enters = enter conn7 refl put_7

reachable-connect_ids_example :
    IsValid joined.hub.section
    × (Elem (pos 7) (connect_ids joined.hub)
        ↔ ((c : Connect) × (registered joined.hub (pos 7) ≡ some c)))
    × ((c : Connect)
        → registered joined.hub (pos 7) ≡ some c
        → (c.id ≡ pos 7) × IsLive c joined.live)
reachable-connect_ids_example =
    reachable-connect_ids site 4 (row7 ∷ []) [] joined (pos 7) (later stay (step enters))

up_again : (h : Hub) → h.minions ≡ hub0.minions → (attempt site 99 conn7 h).1 ≡ true
unfolding attempt ℤ_discrete
up_again h e = rw e refl

abbrev knocked : System
knocked = record { hub = hub0; live = (conn7, closing) ∷ [] }

knocked_out_late_example :
    (t : System) × Run (Step site) knocked t
    × Elem {A = Connect × Phase} (conn7, Steps.serving) t.live
    × (registered t.hub (pos 7) ≡ none)
knocked_out_late_example =
    knocked_out_late site 99 conn7 conn7 knocked [] no_one-IsValid refl
      ((new_segment_map_lem {C = Connect} 4).1 (format_int (pos 7))) refl refl up_again

abbrev request : Request
request = record {
  allowed = true;
  body = codes "x";
  hijacker = true;
  hijacked = true;
  written = true;
  now = 99;
  pick = 0;
}

abbrev codec : Codec
codec = record {
  decrypt = λ b. ok ident7;
  validate = λ i. none;
  encrypt = λ i. ok i.passwd;
  fill = λ n. codes "k";
}

serve_http-Fate_example :
    (h' : Hub) × (r : Reply) × (serve_http site codec request hub0 ≡ some (h', r))
    × IsValid h'.section
    × Fate site codec request hub0 h' r
serve_http-Fate_example = serve_http-Fate site codec request hub0 no_one-IsValid

reachable-registered_example :
    ((i : ℤ) (c : Connect)
      → (registered joined.hub i ≡ some c) ↔ ((c.id ≡ i) × IsLive c joined.live))
    × UniqueIds joined.live
reachable-registered_example = reachable-registered site 4 (row7 ∷ []) [] joined (later stay enters)

run_command-registered_example :
    (h' : Hub) × (run_command {W = Unit {0}}
        (λ mid cmd w. (w, ok tt))
        (pos 7)
        (codes "offline")
        tt
        hub1
      ≡ some (tt, h'))
    × IsValid h'.section
    × ((j : ℤ)
        → registered h' j ≡ (
            if (text_eq (codes "offline") (codes "offline")
                || text_eq (codes "offline") (codes "restart"))
              && not (int_eq (pos 7) (pos 0))
            then without (pos 7) (registered hub1) j
            else registered hub1 j))
run_command-registered_example =
    run_command-registered {W = Unit {0}} (λ mid cmd w. (w, ok tt)) (pos 7) (codes "offline") tt
      hub1 one-IsValid
