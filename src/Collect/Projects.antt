-- ===== src/Collect/Projects.antt =====
-- What a report of packages leaves of its project, and what it leaves alone.
use mathlib.Core.List.{Perm}
use ssoc_broker.Base.{
  ◌≡◌, ◌≢◌, refl, sym, ap, ◌∙◌, subst, List, [], ◌∷◌, ◌++◌, true, false, arith, Text, some, none,
  Elem, inl, inr, ◌⊎◌, Bool-cases, text_eq, text_dec,
}
use ssoc_broker.Base.Int.{ℤ}
use ssoc_broker.Store.{Result-cases, ok, Table, find, >>=-eq-ok}
use ssoc_broker.Store.Rows.{find-Inserted, find-delete_where_all, find-Elem, find-holds}
use ssoc_broker.Store.Batch.{Bulk, rows, Added, unchanged, rows-Added, rows-Added_ne, rows-discard}
use ssoc_broker.TaskDiff.{is_nil}
use ssoc_broker.Collect.Param.{SbomRequest}
use ssoc_broker.Collect.Laws.{int_eq_refl, int_eq_ne, int_eq-true}
use ssoc_broker.Collect.Sbom.{
  SbomProject, SbomComponent, SbomTables, with_project_id, of_file, of_id, of_project, components,
  project, create_project, insert_components, sbom_insert, discard_project, sbom_update,
}
use ssoc_broker.Collect.Components.{text_eq_refl, purl-components}

Added-nil : {R : Type 0} (rs t t' : List R) → is_nil rs ≡ true → t ≡ t' → Added rs t t'
Added-nil [] t t' h e = subst (Added [] t) e (unchanged t)
Added-nil (r ∷ rs) t t' h e = absurd (ground arith)

module _ (ptj : Table with_project_id) (cpts : Bulk SbomComponent) (mid : ℤ) (inet : Text)
    (r : SbomRequest) where
  -- The project of the report, with the id that the database assigned.
  abbrev pub stored : ℤ → SbomProject
  stored n = with_project_id n (project ptj cpts mid inet r)

  -- The tables `s'` hold the report's project, under the id `n`, and its components, with those that
  -- stood under `n` in the tables `s`; the components of other projects are the ones of `s`.
  pub record Reported (n : ℤ) (s s' : SbomTables) : Type 0 where
    pub shown : find (of_file mid r.filename) s'.projects ≡ some (stored n)
    pub parts :
        Perm
          (rows (of_project n) s'.components)
          (components mid inet n r ++ rows (of_project n) s.components)
    pub others :
        (i : ℤ) → i ≢ n → rows (of_project i) s'.components ≡ rows (of_project i) s.components

  create_project-ok :
      (s s1 : SbomTables) (p : SbomProject)
      → create_project ptj cpts mid inet (project ptj cpts mid inet r) s ≡ (s1, ok p)
      → find (of_file mid r.filename) s.projects ≡ none
      → (n : ℤ) × (p ≡ stored n)
        × (s1.components ≡ s.components)
        × (find (of_file mid r.filename) s1.projects ≡ some (stored n))
  create_project-ok s s1 p e free =
      elim (Result-cases (ptj.create (project ptj cpts mid inet r) s.projects)) [
        | inl ((p', t), q) ↦
            let (n, made, put) = ptj.create_ok _ p' s.projects t q in
            let same : p' ≡ p = ground arith in
            let fits : of_file mid r.filename p' ≡ true =
              rw made (ground (arith, int_eq_refl mid, text_eq_refl r.filename)) in
            (
              n,
              sym same ∙ made,
              ground arith,
              ap (find (of_file mid r.filename)) (ground arith)
                  ∙ find-Inserted (of_file mid r.filename) put fits free
                  ∙ ap some made,
            )
        | inr (inl q) ↦ absurd (ground arith)
        | inr (inr (x, q)) ↦ absurd (ground arith)
      ]

  insert_components-ok :
      (n : ℤ) (s s' : SbomTables)
      → insert_components ptj cpts mid inet (components mid inet n r) s ≡ (s', ok tt)
      → (s'.projects ≡ s.projects) × Added (components mid inet n r) s.components s'.components
  insert_components-ok n s s' e = elim (Bool-cases (is_nil (components mid inet n r))) [
    | inl none_there ↦ (ground arith, Added-nil _ _ _ none_there (ground arith))
    | inr some_there ↦
        let cs = components mid inet n r in
        let wrote : (cpts.create cs s.components).1 ≡ ok tt = ground arith in
        let left : (cpts.create cs s.components).0 ≡ s'.components = ground arith in
        (ground arith, subst (Added cs s.components) left (cpts.create_ok cs s.components wrote))
  ]

  other_project :
      (i j : ℤ) (c : SbomComponent) → i ≢ j → of_project i c ≡ true → of_project j c ≡ false
  other_project i j c n h =
      int_eq_ne c.project_id j (λ e. n (sym (int_eq-true c.project_id i h) ∙ e))

  of_project-components :
      (n : ℤ) (c : SbomComponent) → Elem c (components mid inet n r) → of_project n c ≡ true
  of_project-components n c m = rw ((purl-components mid inet n r).1 c m) (int_eq_refl n)

  of_project-components_ne :
      (n i : ℤ) (c : SbomComponent)
      → i ≢ n
      → Elem c (components mid inet n r)
      → of_project i c ≡ false
  of_project-components_ne n i c ne m =
      rw ((purl-components mid inet n r).1 c m) (int_eq_ne n i (λ e. ne (sym e)))

  sbom_insert-Reported :
      (s s' : SbomTables)
      → sbom_insert ptj cpts mid inet r s ≡ (s', ok tt)
      → find (of_file mid r.filename) s.projects ≡ none
      → (n : ℤ) × Reported n s s'
  unfolding sbom_insert
  sbom_insert-Reported s s' e free =
      let (s1, p, made, wrote) =
        >>=-eq-ok (create_project ptj cpts mid inet (project ptj cpts mid inet r))
          (λ x. insert_components ptj cpts mid inet (components mid inet x.id r)) s s' e in
      let (n, same, kept, shown) = create_project-ok s s1 p made free in
      let (left, added) = insert_components-ok n s1 s' (
        ap (λ i. insert_components ptj cpts mid inet (components mid inet i r) s1)
          (ap (λ (x : SbomProject). x.id) (sym same))
        ∙ wrote) in
      (
        n,
        record {
          shown = ap (find (of_file mid r.filename)) left ∙ shown;
          parts =
              subst
                (λ t.
                  Perm (rows (of_project n) s'.components)
                    (components mid inet n r ++ rows (of_project n) t))
                kept (rows-Added (of_project n) added (of_project-components n));
          others = λ i ne.
              rows-Added_ne (of_project i) added (λ c m. of_project-components_ne n i c ne m)
              ∙ ap (rows (of_project i)) kept;
        },
      )

  -- The deletion of the project that the report's file has, if it has one, succeeds.
  abbrev pub Deletable : SbomTables → Type 0
  Deletable s =
      (old : SbomProject)
      → ptj.first (of_file mid r.filename) s.projects ≡ ok old
      → (t : List SbomProject) × (ptj.delete (of_id old.id) s.projects ≡ ok t)

  -- All projects of the report's file have one id.
  abbrev pub OneProject : SbomTables → Type 0
  OneProject s =
      (p q : SbomProject)
      → Elem p s.projects
      → Elem q s.projects
      → of_file mid r.filename p ≡ true
      → of_file mid r.filename q ≡ true
      → p.id ≡ q.id

  discarded :
      (s : SbomTables) (old : SbomProject)
      → OneProject s
      → Deletable s
      → ptj.first (of_file mid r.filename) s.projects ≡ ok old
      → find (of_file mid r.filename) (discard_project ptj cpts mid inet old.id s).projects ≡ none
  discarded s old one gone q =
      let (t, e) = gone old q in
      let fits = of_file mid r.filename in
      let was = ptj.first_ok fits s.projects old q in
      rw e (
        ap (find fits) (ptj.delete_ok (of_id old.id) s.projects t e)
        ∙ find-delete_where_all fits (of_id old.id) s.projects (λ x m k.
          rw
            (one x old m (find-Elem fits s.projects old was) k (find-holds fits s.projects old was))
            (int_eq_refl old.id)))

  -- What a report of packages that ends well leaves, where the projects of the report's file have one
  -- id and their deletion succeeds (the code drops its error): nothing changed, and the stored project
  -- has the report's checksum; or the report's project is found, under an id that the database gave,
  -- with the report's components and what stood under that id before, and the components of every
  -- project but this and the old one are as they were.
  pub sbom_update-Reported :
      (s s' : SbomTables)
      → sbom_update ptj cpts mid inet r s ≡ (s', ok tt)
      → Deletable s
      → OneProject s
      → ((old : SbomProject) × (find (of_file mid r.filename) s.projects ≡ some old)
          × (old.sha1 ≡ r.checksum)
          × (s' ≡ s))
        ⊎ ((n : ℤ) × (cleared : SbomTables) × Reported n cleared s'
            × ((i : ℤ)
                → ((old : SbomProject)
                    → find (of_file mid r.filename) s.projects ≡ some old
                    → old.id ≢ i)
                → rows (of_project i) cleared.components ≡ rows (of_project i) s.components))
  unfolding sbom_update
  sbom_update-Reported s s' e gone one =
      elim (Result-cases (ptj.first (of_file mid r.filename) s.projects)) [
        | inl (old, q) ↦ elim (text_dec old.sha1 r.checksum) [
          | yes same ↦ inl (old, ptj.first_ok _ _ old q, same, ground arith)
          | no differs ↦
              let was = ptj.first_ok _ s.projects old q in
              let (n, rep) =
                sbom_insert-Reported (discard_project ptj cpts mid inet old.id s) s' (ground arith)
                  (discarded s old one gone q) in
              inr (
                n,
                discard_project ptj cpts mid inet old.id s,
                rep,
                λ i other.
                    rows-discard cpts (of_project i) (of_project old.id) s.components
                      (λ c own. other_project old.id i c (other old was) own),
              )
        ]
        | inr (inl q) ↦
            let (n, rep) =
              sbom_insert-Reported s s' (ground arith) (ptj.first_missing _ s.projects q) in
            inr (n, s, rep, λ i other. refl)
        | inr (inr (x, q)) ↦ absurd (ground arith)
      ]

  -- A report that is stored is not stored again: sent a second time, it changes nothing.
  pub sbom_update-again :
      (n : ℤ) (s s' : SbomTables) → Reported n s s' → (sbom_update ptj cpts mid inet r s').0 ≡ s'
  unfolding sbom_update
  sbom_update-again n s s' rep =
      elim (Result-cases (ptj.first (of_file mid r.filename) s'.projects)) [
        | inl (old, q) ↦
            let same : old ≡ stored n =
              ground (arith, ptj.first_ok _ s'.projects old q, rep.shown) in
            let sum : text_eq old.sha1 r.checksum ≡ true = rw same (text_eq_refl r.checksum) in
            rw (q, sbom_update) (rw sum refl)
        | inr (inl q) ↦ absurd (ground (arith, ptj.first_missing _ s'.projects q, rep.shown))
        | inr (inr (x, q)) ↦ rw (q, sbom_update) refl
      ]
