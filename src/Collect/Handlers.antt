-- ===== src/Collect/Handlers.antt =====
-- app/agtapi/collect.go: the handlers of processes, listeners, accounts, groups and logons.
-- `bound` is what `c.Bind` or the JSON decoder makes of the request.
use ssoc_broker.Base.{ℕ, ◌≡◌, refl, List, [], ◌∷◌, map, Text, text_dec, if◌then◌else◌}
use ssoc_broker.Base.Int.{ℤ, ℤ_discrete}
use ssoc_broker.Store.{Result, ok, M, ◌>>=◌}
use ssoc_broker.Store.Batch.{Bulk, discard}
use ssoc_broker.TaskDiff.{is_nil}
use ssoc_broker.Collect.Param.{
  CollectDiff, CollectProcess, CollectLogonRequest, CollectListenItem, CollectGroupItem,
  CollectAccountItem,
}
use ssoc_broker.Collect.Model.{
  MinionProcess, MinionLogon, MinionListen, MinionGroup, MinionAccount, process_model, logon_model,
  listen_model, group_model, account_model,
}
use ssoc_broker.Collect.Replace.{Kind, of_minion, apply_diff, apply_full}

abbrev pub bind : {S A : Type 0} → Result A → M S A
bind bound s = (s, bound)

pub process_model-minion_id :
    {Float : Type 0} (now : ℕ) (mid : ℤ) (inet : Text) (p : CollectProcess Float)
    → (process_model now mid inet p).minion_id ≡ mid
unfolding process_model
process_model-minion_id now mid inet p = refl

pub process_model-pid :
    {Float : Type 0} (now : ℕ) (mid : ℤ) (inet : Text) (p : CollectProcess Float)
    → (process_model now mid inet p).pid ≡ p.pid
unfolding process_model
process_model-pid now mid inet p = refl

pub listen_model-minion_id :
    (mid : ℤ) (inet : Text) (l : CollectListenItem) → (listen_model mid inet l).minion_id ≡ mid
unfolding listen_model
listen_model-minion_id mid inet l = refl

pub listen_model-record_id :
    (mid : ℤ) (inet : Text) (l : CollectListenItem)
    → (listen_model mid inet l).record_id ≡ l.record_id
unfolding listen_model
listen_model-record_id mid inet l = refl

pub account_model-minion_id :
    (mid : ℤ) (inet : Text) (a : CollectAccountItem) → (account_model mid inet a).minion_id ≡ mid
unfolding account_model
account_model-minion_id mid inet a = refl

pub account_model-name :
    (mid : ℤ) (inet : Text) (a : CollectAccountItem) → (account_model mid inet a).name ≡ a.name
unfolding account_model
account_model-name mid inet a = refl

pub group_model-minion_id :
    (mid : ℤ) (inet : Text) (g : CollectGroupItem) → (group_model mid inet g).minion_id ≡ mid
unfolding group_model
group_model-minion_id mid inet g = refl

pub group_model-name :
    (mid : ℤ) (inet : Text) (g : CollectGroupItem) → (group_model mid inet g).name ≡ g.name
unfolding group_model
group_model-name mid inet g = refl

module _ {Float : Type 0} (now : ℕ) where
  abbrev pub process_kind : Kind (MinionProcess Float) (CollectProcess Float) ℤ
  process_kind = record {
    minion_id = λ r. r.minion_id;
    row_key = λ r. r.pid;
    item_key = λ p. p.pid;
    key_dec = ℤ_discrete;
    model = process_model now;
    model_minion_id = process_model-minion_id now;
    model_key = process_model-pid now;
  }

abbrev pub listen_kind : Kind MinionListen CollectListenItem Text
listen_kind = record {
  minion_id = λ r. r.minion_id;
  row_key = λ r. r.record_id;
  item_key = λ l. l.record_id;
  key_dec = text_dec;
  model = listen_model;
  model_minion_id = listen_model-minion_id;
  model_key = listen_model-record_id;
}

abbrev pub account_kind : Kind MinionAccount CollectAccountItem Text
account_kind = record {
  minion_id = λ r. r.minion_id;
  row_key = λ r. r.name;
  item_key = λ a. a.name;
  key_dec = text_dec;
  model = account_model;
  model_minion_id = account_model-minion_id;
  model_key = account_model-name;
}

abbrev pub group_kind : Kind MinionGroup CollectGroupItem Text
group_kind = record {
  minion_id = λ r. r.minion_id;
  row_key = λ r. r.name;
  item_key = λ g. g.name;
  key_dec = text_dec;
  model = group_model;
  model_minion_id = group_model-minion_id;
  model_key = group_model-name;
}

module _ (mid : ℤ) (inet : Text) where
  unfoldable pub process_diff :
      {Float : Type 0}
      → ℕ
      → Bulk (MinionProcess Float)
      → Result (CollectDiff (CollectProcess Float) ℤ)
      → M (List (MinionProcess Float)) (Unit {0})
  unfolding apply_diff
  process_diff now tbl bound = do req ← bind bound; apply_diff (process_kind now) tbl mid inet req

  -- An error of the insertion is logged, and `nil` returned.
  unfoldable pub process_full :
      {Float : Type 0}
      → ℕ
      → Bulk (MinionProcess Float)
      → Result (List (CollectProcess Float))
      → M (List (MinionProcess Float)) (Unit {0})
  unfolding apply_full
  process_full now tbl bound = do
    req ← bind bound
    apply_full (process_kind now) tbl mid inet (λ _. ok tt) req

  unfoldable pub listen_diff :
      Bulk MinionListen
      → Result (CollectDiff CollectListenItem Text)
      → M (List MinionListen) (Unit {0})
  unfolding apply_diff
  listen_diff tbl bound = do req ← bind bound; apply_diff listen_kind tbl mid inet req

  unfoldable pub listen_full :
      Bulk MinionListen → Result (List CollectListenItem) → M (List MinionListen) (Unit {0})
  unfolding apply_full
  listen_full tbl bound = do req ← bind bound; apply_full listen_kind tbl mid inet (λ r. r) req

  unfoldable pub account_diff :
      Bulk MinionAccount
      → Result (CollectDiff CollectAccountItem Text)
      → M (List MinionAccount) (Unit {0})
  unfolding apply_diff
  account_diff tbl bound = do req ← bind bound; apply_diff account_kind tbl mid inet req

  unfoldable pub group_diff :
      Bulk MinionGroup
      → Result (CollectDiff CollectGroupItem Text)
      → M (List MinionGroup) (Unit {0})
  unfolding apply_diff
  group_diff tbl bound = do req ← bind bound; apply_diff group_kind tbl mid inet req

  unfoldable pub group_full :
      Bulk MinionGroup → Result (List CollectGroupItem) → M (List MinionGroup) (Unit {0})
  unfolding apply_full
  group_full tbl bound = do req ← bind bound; apply_full group_kind tbl mid inet (λ r. r) req

  -- `AccountFull` of the service, with the work that it hands to its pool: no error is returned.
  unfoldable pub replace_accounts :
      Bulk MinionAccount → List MinionAccount → M (List MinionAccount) (Unit {0})
  unfolding discard
  replace_accounts tbl dats t =
      let left = discard tbl (of_minion account_kind mid) t in
      (if is_nil dats then left else (tbl.insert dats left).0, ok tt)

  unfoldable pub account_full :
      Bulk MinionAccount → Result (List CollectAccountItem) → M (List MinionAccount) (Unit {0})
  unfolding replace_accounts
  account_full tbl bound = do
    req ← bind bound
    replace_accounts tbl (map (account_model mid inet) req)

  unfoldable pub logon :
      ℕ → Bulk MinionLogon → Result CollectLogonRequest → M (List MinionLogon) (Unit {0})
  logon now tbl bound = do req ← bind bound; tbl.create (logon_model now mid inet req ∷ [])
