-- ===== src/Tests/Packages.antt =====
-- app/agtapi/collect.go: packages that agent 7 reports, and a full report whose insertion fails.
use ssoc_broker.Base.{
  ◌≡◌, ◌≢◌, refl, ◌↔◌, ◌⊎◌, List, [], ◌∷◌, map, some, none, Elem, Text, codes, text_dec, arith, inl,
  inr,
}
use ssoc_broker.Base.Int.{ℤ, pos}
use ssoc_broker.Store.{Result, ok, failed, Table, find}
use ssoc_broker.Store.Memory
use ssoc_broker.Store.Batch
use ssoc_broker.Store.Batch.{Bulk, rows, Some-nil, unchanged}
use ssoc_broker.Collect.Param.{CollectListenItem, CollectProcess, SbomRequest, SbomSdk}
use ssoc_broker.Collect.Model.{MinionProcess, MinionListen, process_model, listen_model}
use ssoc_broker.Collect.Handlers.{process_full, listen_full, process_kind, listen_kind}
use ssoc_broker.Collect.Answers.{PartOf, process_full-listen_full}
use ssoc_broker.Collect.Sbom.{
  SbomProject, SbomComponent, SbomTables, with_project_id, of_file, of_project, components,
  component, project, versioned, sbom_update,
}
use ssoc_broker.Collect.Components.{DistinctPurls, purl-components}
use ssoc_broker.Collect.Projects.{Reported, Deletable, OneProject, sbom_update-Reported}

abbrev sdk : Text → SbomSdk
sdk purl = record {
  purl = purl;
  name = codes "n";
  version = [];
  language = codes "go";
  algorithm = [];
  checksum = [];
  licenses = [];
}

abbrev report : SbomRequest
report = record {
  filename = codes "/opt/x";
  algorithm = codes "sha1";
  checksum = codes "c1";
  modify_at = 5;
  size = pos 10;
  process = record { pid = pos 1; exe = codes "x"; username = codes "root" };
  sdks = sdk (codes "pkg:a") ∷ sdk (codes "pkg:a@0.0.0") ∷ sdk (codes "pkg:b@2") ∷ [];
}

purl-components_example :
    DistinctPurls (components (pos 7) [] (pos 3) report)
    × ((c : SbomComponent) → Elem c (components (pos 7) [] (pos 3) report) → c.project_id ≡ pos 3)
    × ((p : Text)
        → Elem p (map (λ (c : SbomComponent). c.purl) (components (pos 7) [] (pos 3) report))
          ↔ Elem p (map (λ sk. (versioned sk).purl) report.sdks))
purl-components_example = purl-components (pos 7) [] (pos 3) report

abbrev projects : Table with_project_id
projects = Memory.memory with_project_id (λ _. pos 3)

abbrev parts : Bulk SbomComponent
parts = Batch.memory

-- The project of an earlier report, with one component.
abbrev earlier : SbomProject
earlier = record (project projects parts (pos 7) [] report) { id = pos 2; sha1 = codes "c0" }

abbrev before : SbomTables
before = record {
  projects = earlier ∷ [];
  components = component (pos 7) [] (pos 2) (codes "/opt/x") (sdk (codes "pkg:old@1")) ∷ [];
}

abbrev after : SbomTables
after = (sbom_update projects parts (pos 7) [] report before).0

next_report : sbom_update projects parts (pos 7) [] report before ≡ (after, ok tt)
unfolding sbom_update text_dec ssoc_broker.Base.Int.ℤ_discrete
next_report = refl

deletable : Deletable projects parts (pos 7) [] report before
deletable old e = (_, refl)

one_project : OneProject projects parts (pos 7) [] report before
one_project p q (inl a) (inl b) h k = ground arith
one_project p q (inl a) (inr m) h k = absurd m
one_project p q (inr m) _ h k = absurd m

sbom_update-Reported_example :
    ((old : SbomProject) × (find (of_file (pos 7) report.filename) before.projects ≡ some old)
      × (old.sha1 ≡ report.checksum)
      × (after ≡ before))
    ⊎ ((n : ℤ) × (cleared : SbomTables) × Reported projects parts (pos 7) [] report n cleared after
        × ((i : ℤ)
            → ((old : SbomProject)
                → find (of_file (pos 7) report.filename) before.projects ≡ some old
                → old.id ≢ i)
            → rows (of_project i) cleared.components ≡ rows (of_project i) before.components))
sbom_update-Reported_example =
    sbom_update-Reported projects parts (pos 7) [] report before after next_report deletable
      one_project

-- A table on which an insertion fails.
failure : ◌≢◌ {A = Result (Unit {0})} (failed (codes "disk")) (ok tt)
failure e = cc

abbrev broken : {R : Type 0} → Bulk R
broken = record Batch.memory {
  insert = λ rs t. (t, failed (codes "disk"));
  insert_some = λ rs t. ([], Some-nil rs, unchanged t);
  insert_ok = λ rs t e. absurd (failure e);
}

abbrev port : CollectListenItem
port = record {
  record_id = codes "r1";
  pid = 1;
  fd = pos 3;
  family = 2;
  protocol = 1;
  local_ip = codes "0.0.0.0";
  local_port = pos 80;
  path = [];
  state = [];
  process = [];
  username = [];
}

abbrev process : CollectProcess (Unit {0})
process = record {
  name = codes "sh";
  state = [];
  pid = pos 1;
  ppid = pos 0;
  pgid = 1;
  cmdline = [];
  username = [];
  cwd = [];
  executable = [];
  args = [];
  user_ticks = 0;
  total_pct = tt;
  total_norm_pct = tt;
  system_ticks = 0;
  total_ticks = 0;
  start_time = [];
  mem_size = 0;
  rss_bytes = 0;
  rss_pct = tt;
  share = 0;
  checksum = [];
  modify_time = 0;
  create_time = 0;
}

-- What the agent reported before.
abbrev old_processes : List (MinionProcess (Unit {0}))
old_processes = process_model 8 (pos 7) [] process ∷ []

abbrev old_ports : List MinionListen
old_ports = listen_model (pos 7) [] port ∷ []

process_full-listen_full_example :
    (((process_full (pos 7) [] 9 broken (ok (process ∷ [])) old_processes).1 ≡ ok tt)
      × PartOf
          (process_kind 9)
          (pos 7)
          []
          (process ∷ [])
          (process_full (pos 7) [] 9 broken (ok (process ∷ [])) old_processes).0)
    × (((listen_full (pos 7) [] broken (ok (port ∷ [])) old_ports).1 ≡ failed (codes "disk"))
        × PartOf listen_kind
            (pos 7)
            []
            (port ∷ [])
            (listen_full (pos 7) [] broken (ok (port ∷ [])) old_ports).0)
unfolding process_model listen_model ssoc_broker.Base.Int.ℤ_discrete
process_full-listen_full_example =
    process_full-listen_full (pos 7) [] 9 broken broken process [] port [] old_processes []
      old_ports [] (codes "disk") (codes "disk") refl refl refl refl
