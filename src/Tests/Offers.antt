-- ===== src/Tests/Offers.antt =====
-- Joining the center at one address, downloads, and a change of tags.
use ssoc_broker.Base.{
  ℕ, ◌≤◌, ◌≡◌, ◌≢◌, refl, inl, inr, List, [], ◌∷◌, some, none, true, false, arith, Elem, codes, ltb,
}
use ssoc_broker.Base.Int.{ℤ, pos}
use ssoc_broker.Store.{ok}
use ssoc_broker.Store.Batch
use ssoc_broker.Store.Batch.{Bulk, rows}
use ssoc_broker.Minion.{MinionTag}
use ssoc_broker.Telecom.{Address}
use ssoc_broker.Telecom.Client.{Wire, Ended, Dialling, turn, dial}
use ssoc_broker.Telecom.Joining.{Connects, dial-Connects}
use ssoc_broker.Binaries.{try_lock}
use ssoc_broker.Binaries.Limit.{Downloads, Turn, stay, later, enter, reachable-count}
use ssoc_broker.Tags.{update, Fate, update-Fate}
use ssoc_broker.Tests.Registry.{row7, agents}

abbrev center : Address
center = record { tls = true; addr = codes "c:443"; name = codes "c" }

-- A network on which every address accepts.
abbrev wire : Wire (Unit {0}) (Unit {0}) (Unit {0})
wire = record {
  connect = λ a w. (w, some tt);
  exchange = λ c a w. (w, ok (202, []));
  close = λ c w. w;
  parse_detail = λ b. none;
  decrypt = λ b. ok tt;
  is_not_acceptable = λ c. false;
  ctx_err = λ w. none;
  parent_err = λ w. none;
  since = λ w. 0;
  sleep = λ n w. w;
}

accepts : (a : Address) (w : Unit {0}) → Connects wire (turn wire a w).1
unfolding turn
accepts a w = tt

dial-Connects_example :
    (d' : Dialling (Unit {0})) × (e : Ended (Unit {0}) (Unit {0})) × (dial wire 2
        (center ∷ (center ∷ []))
        (record { index = 0; world = tt })
      ≡ some (d', some e))
    × Connects wire (some e)
dial-Connects_example =
    dial-Connects wire (center ∷ (center ∷ [])) (λ a w. inl (accepts a w)) 1 center
      (record { index = 0; world = tt }) (omega arith) refl (λ w. accepts center w)

abbrev idle : Downloads
idle = record { rest = record { maxsize = 2; count = 0 }; held = 0 }

abbrev busy : Downloads
busy = record { rest = record { maxsize = 2; count = 1 }; held = 1 }

starts : Turn idle busy
unfolding try_lock
starts = enter refl

reachable-count_example : ◌≡◌ {A = ℕ} 1 1 × ◌≤◌ 1 2 × ((try_lock busy.rest).1 ≡ ltb 1 2)
reachable-count_example = reachable-count 2 busy (later stay starts)

abbrev tag7 : MinionTag
tag7 = record { minion_id = pos 7; tag = codes "web"; lifelong = false }

abbrev tagged : Bulk MinionTag
tagged = Batch.memory

merged : (olds : List MinionTag) (t : MinionTag) → Elem t (tag7 ∷ []) → t.minion_id ≡ pos 7
merged olds t (inl e) = ground arith
merged olds t (inr h) = elim h [ ]

eight_seven : ◌≢◌ {A = ℤ} (pos 8) (pos 7)
eight_seven e = ground arith

update-Fate_example :
    Fate agents tagged
      (λ p t. ok [])
      (λ olds mid dels news. tag7 ∷ [])
      (codes "removed")
      (pos 8)
      []
      (update agents tagged
        (λ p t. ok [])
        (λ olds mid dels news. tag7 ∷ [])
        (codes "removed")
        (row7 ∷ [])
        (pos 7)
        (codes "web" ∷ [])
        []
        [])
update-Fate_example =
    update-Fate agents tagged (λ p t. ok []) (λ olds mid dels news. tag7 ∷ []) (codes "removed")
      (row7 ∷ []) (pos 7) (pos 8) (codes "web" ∷ []) [] [] merged eight_seven
