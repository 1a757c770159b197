-- ===== src/Raft/Network/Lineage.antt =====
-- Logs that hold, up to each of their entries, the log of the leader of that entry's term.
use distributed_fault_tolera.Prelude.{
  ℕ, zero, suc, ◌+◌, ◌≤◌, List, [], ◌∷◌, ◌++◌, Option, none, some, ◌≡◌, refl, ap, sym, ◌∙◌, arith,
  length, take, drop, get_elem?, take-append, length-take, get_elem?-take, get_elem?-lt,
  get_elem?-append, get_elem?-append_left, take-append-drop, ◌⊎◌, inl, inr, length-append,
  take-length, dec_lt,
}
use mathlib.Core.List.{append_assoc, append-nil}
use distributed_fault_tolera.Raft.Log.{LogEntry}
use distributed_fault_tolera.Raft.AppendEntries.Merge.{merge}

-- For a term that has had a leader: the leader, and the log that it has had in this term.
abbrev pub Lines : Type 0
Lines = ℕ → Option (ℕ × List LogEntry)

pub record Traces (lines : Lines) (xs : List LogEntry) : Type 0 where
  pub at :
      (k : ℕ) (e : LogEntry)
      → get_elem? xs k ≡ some e
      → (i : ℕ) × (later : List LogEntry) × (lines e.term ≡ some (i, take (k + 1) xs ++ later))

-- Leaders' logs have become longer, and further terms have got a leader.
abbrev pub Extends : Lines → Lines → Type 0
Extends lines lines' =
    (t i : ℕ) (xs : List LogEntry)
    → lines t ≡ some (i, xs)
    → (more : List LogEntry) × (lines' t ≡ some (i, xs ++ more))

pub Traces-Extends :
    {lines lines' : Lines} {xs : List LogEntry}
    → Extends lines lines'
    → Traces lines xs
    → Traces lines' xs
Traces-Extends {xs = xs} longer traces = record {
  at = λ k e here.
      let (i, later, h) = traces.at k e here in
      let (more, h') = longer e.term i (take (k + 1) xs ++ later) h in
      (i, later ++ more, h' ∙ ap (λ l. some (i, l)) (append_assoc (take (k + 1) xs) later more));
}

line_of : Option (ℕ × List LogEntry) → List LogEntry
line_of none = []
line_of (some (i, xs)) = xs

-- Two such logs that have an entry of one term at one place are the same up to there.
pub Traces-same :
    {lines : Lines} {xs ys : List LogEntry} (k : ℕ) (x y : LogEntry)
    → Traces lines xs
    → Traces lines ys
    → get_elem? xs k ≡ some x
    → get_elem? ys k ≡ some y
    → x.term ≡ y.term
    → take (k + 1) xs ≡ take (k + 1) ys
unfolding line_of
Traces-same {lines} {xs} {ys} k x y tx ty here there same =
    let (_, u, hx) = tx.at k x here in
    let (_, v, hy) = ty.at k y there in
    let whole : take (k + 1) xs ++ u ≡ take (k + 1) ys ++ v =
      ap line_of (sym hx ∙ ap lines same ∙ hy) in
    sym (
      take-append (take (k + 1) xs) u (k + 1)
        (sym (length-take (k + 1) xs (omega (arith, get_elem?-lt xs k here)))))
    ∙ ap (take (k + 1)) whole
    ∙ take-append (take (k + 1) ys) v (k + 1)
        (sym (length-take (k + 1) ys (omega (arith, get_elem?-lt ys k there))))

pub Traces-entry :
    {lines : Lines} {xs ys : List LogEntry} (k : ℕ) (x y : LogEntry)
    → Traces lines xs
    → Traces lines ys
    → get_elem? xs k ≡ some x
    → get_elem? ys k ≡ some y
    → x.term ≡ y.term
    → x ≡ y
Traces-entry {lines} {xs} {ys} k x y tx ty here there same =
    let e = ap (λ l. get_elem? l k) (Traces-same k x y tx ty here there same) in
    let a = get_elem?-take xs (k + 1) k (omega arith) in
    let b = get_elem?-take ys (k + 1) k (omega arith) in cc (e, a, b, here, there)

-- Where equal terms mean equal entries, a merge yields the one list or the other.
pub merge-cases :
    (old new : List LogEntry)
    → ((k : ℕ) (x y : LogEntry)
        → get_elem? old k ≡ some x
        → get_elem? new k ≡ some y
        → x.term ≡ y.term
        → x ≡ y)
    → (merge old new ≡ old) ⊎ (merge old new ≡ new)
unfolding merge
merge-cases old [] same = inl refl
merge-cases [] (y ∷ new) same = inr refl
merge-cases (x ∷ old) (y ∷ new) same =
    ground (arith, same 0 x y refl refl, merge-cases old new (λ k. same (suc k)))

get_elem?-drop_at : (p k : ℕ) (xs : List LogEntry) → get_elem? (drop p xs) k ≡ get_elem? xs (p + k)
get_elem?-drop_at zero k xs = ap (get_elem? xs) (omega arith)
get_elem?-drop_at (suc p) k [] = refl
get_elem?-drop_at (suc p) k (x ∷ xs) =
    let e : suc (p + k) ≡ suc p + k = omega arith in
    get_elem?-drop_at p k xs ∙ ap (get_elem? (x ∷ xs)) e

-- What lies behind a place up to which both logs are the same is merged to the one log or the other.
pub splice-cases :
    {lines : Lines} (p : ℕ) (xs ys : List LogEntry)
    → Traces lines xs
    → Traces lines ys
    → take p xs ≡ take p ys
    → (take p xs ++ merge (drop p xs) (drop p ys) ≡ xs)
      ⊎ (take p xs ++ merge (drop p xs) (drop p ys) ≡ ys)
splice-cases p xs ys tx ty front =
    elim (merge-cases (drop p xs) (drop p ys) (λ k x y here there same.
      Traces-entry (p + k) x y tx ty (sym (get_elem?-drop_at p k xs) ∙ here)
        (sym (get_elem?-drop_at p k ys) ∙ there) same)) [
          | inl old ↦ inl (ap (λ l. take p xs ++ l) old ∙ take-append-drop p xs)
          | inr new ↦ inr (
              ap (λ l. take p xs ++ l) new ∙ ap (λ l. l ++ drop p ys) front ∙ take-append-drop p ys)
        ]

take-append_left : (n : ℕ) (xs ys : List LogEntry) → n ≤ length xs → take n (xs ++ ys) ≡ take n xs
take-append_left zero xs ys h = refl
take-append_left (suc n) [] ys h = elim h [ ]
take-append_left (suc n) (x ∷ xs) ys h = ap (λ l. x ∷ l) (take-append_left n xs ys (omega arith))

-- A log traces the lines, and the leader of its term puts an entry behind it.
pub Traces-append :
    {lines : Lines} (i : ℕ) (xs : List LogEntry) (e : LogEntry)
    → Traces lines xs
    → lines e.term ≡ some (i, xs ++ (e ∷ []))
    → Traces lines (xs ++ (e ∷ []))
Traces-append {lines} i xs e traces mine = record {
  at = λ k x here. elim (dec_lt k (length xs)) [
    | yes inside ↦
        let (o, later, h) =
          traces.at k x (sym (get_elem?-append_left xs (e ∷ []) k inside) ∙ here) in
        (
          o,
          later,
          h
              ∙ ap (λ l. some (o, l ++ later))
                  (sym (take-append_left (k + 1) xs (e ∷ []) (omega (arith, inside)))),
        )
    | no outside ↦
        let small = get_elem?-lt (xs ++ (e ∷ [])) k here in
        let end : k ≡ length xs = omega (arith, outside, small, length-append xs (e ∷ [])) in
        let it : x ≡ e =
          ground (arith, here, get_elem?-append xs (e ∷ []) 0 k (omega (arith, end))) in
        let all : take (k + 1) (xs ++ (e ∷ [])) ≡ xs ++ (e ∷ []) =
          ap (λ n. take n (xs ++ (e ∷ []))) (omega (arith, end, length-append xs (e ∷ [])))
          ∙ take-length (xs ++ (e ∷ [])) in
        (
          i,
          [],
          ap (λ y. lines y.term) it ∙ mine ∙ ap (λ l. some (i, l)) (sym all ∙ sym (append-nil _)),
        )
  ];
}
