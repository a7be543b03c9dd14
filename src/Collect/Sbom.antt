-- ===== src/Collect/Sbom.antt =====
-- app/agtapi/collect.go: `Sbom` and `sbomInsert`; app/internal/param/collect.go: `Components`.
use ssoc_broker.Base.{
  ℕ, List, [], ◌∷◌, ◌++◌, Bool, false, ◌&&◌, ◌||◌, if◌then◌else◌, ◌==◌, Text, codes, text_eq,
  length,
}
use ssoc_broker.Base.Int.{ℤ, int_eq}
use ssoc_broker.Store.{Result, ok, missing, failed, Table, M, ◌>>=◌}
use ssoc_broker.Store.Batch.{Bulk, discard}
use ssoc_broker.TaskDiff.{is_nil}
use ssoc_broker.Collect.Param.{SbomSdk, SbomRequest}
use ssoc_broker.Collect.Path.{clean}
use ssoc_broker.Collect.Handlers.{bind}

pub record SbomProject : Type 0 where
  pub id : ℤ
  pub minion_id : ℤ
  pub inet : Text
  pub filepath : Text
  pub sha1 : Text
  pub size : ℤ
  pub component_num : ℕ
  pub pid : ℤ
  pub exe : Text
  pub username : Text
  pub modify_at : ℕ

pub record SbomComponent : Type 0 where
  pub minion_id : ℤ
  pub inet : Text
  pub project_id : ℤ
  pub filepath : Text
  pub sha1 : Text
  pub name : Text
  pub version : Text
  pub language : Text
  pub licenses : List Text
  pub purl : Text

-- `strings.Contains(s, "@")`
abbrev pub has_at : Text → Bool
has_at [] = false
has_at (c ∷ s) = c == b'@' || has_at s

abbrev pub has_text : Text → List Text → Bool
has_text p [] = false
has_text p (q ∷ seen) = text_eq q p || has_text p seen

-- A package without a version gets one.
abbrev pub versioned : SbomSdk → SbomSdk
versioned sk =
    if has_at sk.purl
    then sk
    else record sk { purl = sk.purl ++ codes "@0.0.0"; version = codes "0.0.0" }

module _ (mid : ℤ) (inet : Text) (project_id : ℤ) where
  abbrev pub component : Text → SbomSdk → SbomComponent
  component filename sk = record {
    minion_id = mid;
    inet = inet;
    project_id = project_id;
    filepath = filename;
    sha1 = sk.checksum;
    name = sk.name;
    version = sk.version;
    language = sk.language;
    licenses = sk.licenses;
    purl = sk.purl;
  }

  -- The loop of `Components`, with the keys of `unique`.
  unfoldable pub components_loop : Text → List Text → List SbomSdk → List SbomComponent
  components_loop filename unique [] = []
  components_loop filename unique (sk ∷ sks) =
      let sk' = versioned sk in
      let seen = has_text sk'.purl unique in
      let rest = components_loop filename (if seen then unique else sk'.purl ∷ unique) sks in
      if seen then rest else component filename sk' ∷ rest

  unfoldable pub components : SbomRequest → List SbomComponent
  unfolding components_loop
  components sr = components_loop sr.filename [] sr.sdks

pub record SbomTables : Type 0 where
  pub projects : List SbomProject
  pub components : List SbomComponent

abbrev pub with_project_id : ℤ → SbomProject → SbomProject
with_project_id n p = record p { id = n }

abbrev pub of_file : ℤ → Text → SbomProject → Bool
of_file mid filename p = int_eq p.minion_id mid && text_eq p.filepath filename

abbrev pub of_id : ℤ → SbomProject → Bool
of_id i p = int_eq p.id i

abbrev pub of_project : ℤ → SbomComponent → Bool
of_project i c = int_eq c.project_id i

module _ (ptj : Table with_project_id) (cpts : Bulk SbomComponent) (mid : ℤ) (inet : Text) where
  abbrev pub project : SbomRequest → SbomProject
  project r = record {
    id = ℤ.pos 0;
    minion_id = mid;
    inet = inet;
    filepath = r.filename;
    sha1 = r.checksum;
    size = r.size;
    component_num = length r.sdks;
    pid = r.process.pid;
    exe = r.process.exe;
    username = r.process.username;
    modify_at = r.modify_at;
  }

  abbrev pub create_project : SbomProject → M SbomTables SbomProject
  create_project p s = elim (ptj.create p s.projects) [
    | ok (p', t) ↦ (record s { projects = t }, ok p')
    | missing ↦ (s, missing)
    | failed e ↦ (s, failed e)
  ]

  abbrev pub insert_components : List SbomComponent → M SbomTables (Unit {0})
  insert_components cs s =
      let (t, r) = cpts.create cs s.components in
      if is_nil cs then (s, ok tt) else (record s { components = t }, r)

  unfoldable pub sbom_insert : SbomRequest → M SbomTables (Unit {0})
  unfolding components
  sbom_insert r = do
    pjt ← create_project (project r)
    insert_components (components mid inet pjt.id r)

  -- The old project and its components are deleted; errors are dropped.
  abbrev pub discard_project : ℤ → SbomTables → SbomTables
  discard_project i s = record {
    projects = elim (ptj.delete (of_id i) s.projects) [
      | ok t ↦ t
      | missing ↦ s.projects
      | failed e ↦ s.projects
    ];
    components = discard cpts (of_project i) s.components;
  }

  unfoldable pub sbom_update : SbomRequest → M SbomTables (Unit {0})
  unfolding sbom_insert discard
  sbom_update r s = elim (ptj.first (of_file mid r.filename) s.projects) [
    | missing ↦ sbom_insert r s
    | failed e ↦ (s, failed e)
    | ok old ↦
        if text_eq old.sha1 r.checksum then (s, ok tt) else sbom_insert r (discard_project old.id s)
  ]

  unfoldable pub sbom : ℕ → Result SbomRequest → M SbomTables (Unit {0})
  unfolding sbom_update clean
  sbom now bound = do
    req ← bind bound
    sbom_update (record req {
      modify_at = if req.modify_at == 0 then now else req.modify_at;
      filename = clean req.filename;
    })
