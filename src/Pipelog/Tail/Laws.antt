-- ===== src/Pipelog/Tail/Laws.antt =====
-- However the blocks fall, `tailN` writes the last `n` lines of the file.
use ssoc_broker.Base.{
  ℕ, zero, suc, ◌+◌, ◌-◌, ◌≤◌, ◌<◌, ◌≡◌, refl, sym, ap, subst, ◌∙◌, inl, inr, List, [], ◌∷◌, ◌++◌,
  some, Bool, true, false, ◌&&◌, if◌then◌else◌, ltb, leb, ◌==◌, arith, length, take, drop, Text,
  Bool-cases, take-append-drop,
}
use ssoc_broker.Pipelog.Tail.{glue, lines, tail_loop, last_lines, write_lines, tail_n}

-- One more byte in front leaves the last `n` of more than `n` lines alone.
lines-cons :
    (c n : ℕ) (s : Text)
    → n < length (lines s)
    → (last_lines n (lines (c ∷ s)) ≡ last_lines n (lines s)) × (n < length (lines (c ∷ s)))
unfolding lines
lines-cons c n s h = go (lines s) h
  where
    go :
        (ls : List Text)
        → n < length ls
        → (last_lines n (if c == 10 then (c ∷ []) ∷ ls else glue c ls) ≡ last_lines n ls)
          × (n < length (if c == 10 then (c ∷ []) ∷ ls else glue c ls))
    go [] k = elim k [ ]
    go (l ∷ ls) k =
        let one : suc (suc (length ls)) - n ≡ suc (suc (length ls) - n) = omega arith in
        let two : suc (length ls) - n ≡ suc (length ls - n) = omega arith in
        ground (arith, one, two, ap (λ (m : ℕ). drop m (l ∷ ls)) two)

lines-append :
    (n : ℕ) (xs s : Text)
    → n < length (lines s)
    → (last_lines n (lines (xs ++ s)) ≡ last_lines n (lines s)) × (n < length (lines (xs ++ s)))
lines-append n [] s h = (refl, h)
lines-append n (c ∷ xs) s h =
    let (same, more) = lines-append n xs s h in
    let (step, still) = lines-cons c n (xs ++ s) more in (step ∙ same, still)

drop-nil : (a : ℕ) → drop {A = ℕ} a [] ≡ []
drop-nil zero = refl
drop-nil (suc a) = refl

drop-drop : (a b : ℕ) (xs : Text) → drop a (drop b xs) ≡ drop (b + a) xs
drop-drop a zero xs = ap (λ (m : ℕ). drop m xs) (omega arith)
drop-drop a (suc b) [] = drop-nil a ∙ sym (drop-nil (suc b + a))
drop-drop a (suc b) (x ∷ xs) =
    let e : suc b + a ≡ suc (b + a) = omega arith in rw e (drop-drop a b xs)

drop_block :
    (content : Text) (pos size : ℕ)
    → size ≤ pos
    → take size (drop (pos - size) content) ++ drop pos content ≡ drop (pos - size) content
drop_block content pos size h =
    let e : (pos - size) + size ≡ pos = omega arith in
    let back : drop pos content ≡ drop size (drop (pos - size) content) =
      sym (drop-drop size (pos - size) content ∙ ap (λ (m : ℕ). drop m content) e) in
    ap (λ (t : Text). take size (drop (pos - size) content) ++ t) back
    ∙ take-append-drop size (drop (pos - size) content)

-- Where the loop stops, the lines of the buffer are good enough.
stopped :
    (content : Text) (n pos : ℕ)
    → (ltb 0 pos && leb (length (lines (drop pos content))) n) ≡ false
    → last_lines n (lines (drop pos content)) ≡ last_lines n (lines content)
stopped content n pos h = elim (Bool-cases (ltb 0 pos)) [
  | inr start ↦
      let e : pos ≡ 0 = ground arith in ap (λ (m : ℕ). last_lines n (lines (drop m content))) e
  | inl more ↦
      let many : n < length (lines (drop pos content)) = ground arith in
      sym (lines-append n (take pos content) (drop pos content) many).0
      ∙ ap (λ (t : Text). last_lines n (lines t)) (take-append-drop pos content)
]

tail_loop-last :
    (readable : ℕ → Bool) (content : Text) (block n fuel pos : ℕ)
    → ((p : ℕ) → readable p ≡ true)
    → 0 < block
    → pos ≤ fuel
    → (ls : List Text) × (tail_loop readable content block n fuel pos
          (drop pos content)
          (lines (drop pos content))
        ≡ some ls)
      × (last_lines n ls ≡ last_lines n (lines content))
unfolding tail_loop
tail_loop-last readable content block n zero pos ok some_bytes h =
    let e : pos ≡ 0 = omega arith in
    (lines (drop pos content), refl, ap (λ (m : ℕ). last_lines n (lines (drop m content))) e)
tail_loop-last readable content block n (suc fuel) pos ok some_bytes h =
    let size : ℕ = if ltb pos block then pos else block in
    let within : size ≤ pos = ground arith in
    let front : Text = drop (pos - size) content in
    elim (Bool-cases (ltb 0 pos && leb (length (lines (drop pos content))) n)) [
      | inr stop ↦ (lines (drop pos content), rw (stop, tail_loop) refl, stopped content n pos stop)
      | inl go_on ↦
          let (ls, e, last) =
            tail_loop-last readable content block n fuel (pos - size) ok some_bytes
              (ground arith) in
          (
            ls,
            rw (go_on, tail_loop)
                (rw (ok (pos - size)) (rw (drop_block content pos size within) e)),
            last,
          )
    ]

write_lines_all :
    (accepts : Text → Bool) (ls : List Text)
    → ((l : Text) → accepts l ≡ true)
    → write_lines accepts ls ≡ (ls, true)
unfolding write_lines
write_lines_all accepts [] h = refl
write_lines_all accepts (l ∷ ls) h = ground (arith, h l, write_lines_all accepts ls h)

drop-length : (xs : Text) → drop (length xs) xs ≡ []
drop-length [] = refl
drop-length (x ∷ xs) = drop-length xs

-- For every block size from 1 up: if the file can be read and the writer takes the lines, `tailN`
-- ends, and it has written exactly the last `n` lines of the file, or all of them if there are no
-- more than `n`.
pub tail_n-last_lines :
    (readable : ℕ → Bool) (accepts : Text → Bool) (content : Text) (block n : ℕ)
    → ((p : ℕ) → readable p ≡ true)
    → ((l : Text) → accepts l ≡ true)
    → 0 < block
    → tail_n readable accepts content block n ≡ some (last_lines n (lines content), true)
unfolding tail_n
tail_n-last_lines readable accepts content block n ok takes some_bytes =
    let (ls, e, last) =
      tail_loop-last readable content block n (length content) (length content) ok some_bytes
        (omega arith) in
    let start : tail_loop readable content block n (length content) (length content) [] []
        ≡ some ls =
      subst
        (λ (t : Text).
          tail_loop readable content block n (length content) (length content) t (lines t)
          ≡ some ls)
        (drop-length content) e in
    rw (start, tail_n)
      (ap some (write_lines_all accepts (last_lines n ls) takes ∙ ap (λ x. (x, true)) last))
