-- ===== src/Pipelog/Subscribers/Laws.antt =====
-- A write reaches exactly the followers.
use ssoc_broker.Base.{
  ℕ, ℕ_discrete, ◌≡◌, sym, subst, ap, ◌↔◌, ite, inl, inr, [], ◌∷◌, Option, some, Text, text_dec,
  map, arith, Elem,
}
use ssoc_broker.GoMap.{
  lookup, insert, Distinct, lookup-insert, insert-Distinct, lookup_of-Elem, Elem-lookup,
}
use ssoc_broker.Pipelog.Subscribers.{Writers, SubMap, writers_of, subscribe, notify_all}

-- Whether a writer follows a file.
abbrev pub follows : SubMap → Text → ℕ → Option (Unit {0})
follows m name w = lookup ℕ_discrete w (writers_of name m)

-- No file lists a writer twice.
abbrev pub IsValid : SubMap → Type 0
IsValid m = (name : Text) → Distinct ℕ_discrete (writers_of name m)

writers_of-insert :
    (name n : Text) (subs : Writers) (m : SubMap)
    → writers_of n (insert text_dec name subs m) ≡ ite (text_dec name n) subs (writers_of n m)
unfolding writers_of
writers_of-insert name n subs m = ground (arith, lookup-insert text_dec name n subs m)

-- When no file lists a writer twice: a subscription keeps it so, adds the writer to the one file, and nothing else.
pub follows-subscribe :
    (m : SubMap) (name : Text) (w : ℕ)
    → IsValid m
    → IsValid (subscribe (some w) name m)
      × ((n : Text) (v : ℕ)
          → follows (subscribe (some w) name m) n v
            ≡ ite
                (text_dec name n)
                (ite (ℕ_discrete w v) (some tt) (follows m n v))
                (follows m n v))
unfolding subscribe
follows-subscribe m name w valid = (
  (λ n.
      subst (Distinct ℕ_discrete)
        (sym (writers_of-insert name n (insert ℕ_discrete w tt (writers_of name m)) m))
        (either n (text_dec name n))),
  λ n v. elim (text_dec name n) [
    | yes p ↦ ground (
      arith,
      writers_of-insert name n (insert ℕ_discrete w tt (writers_of name m)) m,
      lookup-insert ℕ_discrete w v tt (writers_of name m),
      ap (λ (t : Text). writers_of t m) p,
    )
    | no q ↦ ground (arith, writers_of-insert name n (insert ℕ_discrete w tt (writers_of name m)) m)
  ],
)
  where
    either :
        (n : Text) (d : Dec (name ≡ n))
        → Distinct ℕ_discrete (ite d (insert ℕ_discrete w tt (writers_of name m)) (writers_of n m))
    either n (yes p) = insert-Distinct ℕ_discrete w tt (writers_of name m) (valid name)
    either n (no q) = valid n

-- When no file lists a writer twice: what is written to a file reaches each of its followers, and no
-- one else, with the content that was written.
pub notify_all-follows :
    (m : SubMap) (name content : Text)
    → IsValid m
    → (w : ℕ) (p : Text)
    → Elem {A = ℕ × Text} (w, p) (notify_all name content m)
      ↔ ((p ≡ content) × (follows m name w ≡ some tt))
unfolding notify_all
notify_all-follows m name content valid w p = (
  (λ h.
      let (same, here) = sent_to (writers_of name m) h in
      (same, lookup_of-Elem ℕ_discrete w tt (writers_of name m) (valid name) here)),
  λ h. to_sent (writers_of name m) h.0 (Elem-lookup ℕ_discrete w tt (writers_of name m) h.1),
)
  where
    sent_to :
        (l : Writers)
        → Elem {A = ℕ × Text} (w, p) (map (λ e. (e.0, content)) l)
        → (p ≡ content) × Elem {A = ℕ × Unit {0}} (w, tt) l
    sent_to [] h = elim h [ ]
    sent_to ((v, u) ∷ l) (inl e) = (ground arith, inl (ground arith))
    sent_to ((v, u) ∷ l) (inr h) = let (same, here) = sent_to l h in (same, inr here)

    to_sent :
        (l : Writers)
        → p ≡ content
        → Elem {A = ℕ × Unit {0}} (w, tt) l
        → Elem {A = ℕ × Text} (w, p) (map (λ e. (e.0, content)) l)
    to_sent [] same h = elim h [ ]
    to_sent ((v, u) ∷ l) same (inl e) = inl (ground arith)
    to_sent ((v, u) ∷ l) same (inr h) = inr (to_sent l same h)
