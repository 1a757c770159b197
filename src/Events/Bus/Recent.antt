-- ===== src/Events/Bus/Recent.antt =====
-- The window of recent events.
use mathlib.Core.List.{append_assoc, append-nil}
use distributed_fault_tolera.Prelude.{
  drop-eq_nil, if_true, lt→ltb, ℕ, zero, suc, ◌+◌, ◌-◌, ◌≤◌, ◌<◌, List, [], ◌∷◌, ◌++◌, ◌≡◌, ◌∙◌,
  refl, ap, sym, arith, length, drop, map, length-append, length-drop, dec_lt,
}
use distributed_fault_tolera.Events.{Event}
use distributed_fault_tolera.Events.Bus.{Bus, new_bus, stamp, trim, publish_recent}

drop-append_left :
    (n : ℕ) (xs ys : List Event) → n ≤ length xs → drop n (xs ++ ys) ≡ drop n xs ++ ys
drop-append_left zero xs ys h = refl
drop-append_left (suc n) [] ys h = elim h [ ]
drop-append_left (suc n) (x ∷ xs) ys h = drop-append_left n xs ys (omega arith)

drop-drop : (a b n : ℕ) (xs : List Event) → n ≡ b + a → drop a (drop b xs) ≡ drop n xs
drop-drop a zero n xs e = ap (λ k. drop k xs) (omega (arith, e))
drop-drop a (suc b) n [] e = drop-eq_nil [] a (omega arith) ∙ sym (drop-eq_nil [] n (omega arith))
drop-drop a (suc b) zero (x ∷ xs) e = absurd (omega (arith, e))
drop-drop a (suc b) (suc n) (x ∷ xs) e = drop-drop a b n xs (omega (arith, e))

-- The last `m` of a list of events.
abbrev pub newest : ℕ → List Event → List Event
newest m es = drop (length es - m) es

trim-short : (m : ℕ) (es : List Event) → length es ≤ m → trim m es ≡ es
unfolding trim
trim-short m es h = ground arith

trim-long : (m : ℕ) (es : List Event) → m < length es → trim m es ≡ newest m es
unfolding trim
trim-long m es h = if_true es (lt→ltb m (length es) h)

trim-newest :
    (m : ℕ) (es : List Event) (e : Event)
    → trim m (newest m es ++ (e ∷ [])) ≡ newest m (es ++ (e ∷ []))
trim-newest m es e = elim (dec_lt (length es) m) [
  | yes short ↦
      let all : length es - m ≡ 0 = omega arith in
      let still : 0 ≡ length (es ++ (e ∷ [])) - m = omega (arith, length-append es (e ∷ [])) in
      ap (λ n. trim m (drop n es ++ (e ∷ []))) all
      ∙ trim-short m (es ++ (e ∷ [])) (omega (arith, length-append es (e ∷ [])))
      ∙ ap (λ n. drop n (es ++ (e ∷ []))) still
  | no long ↦
      let full : length (newest m es ++ (e ∷ [])) ≡ m + 1 =
        omega (arith, length-append (newest m es) (e ∷ []), length-drop (length es - m) es) in
      let one : length (newest m es ++ (e ∷ [])) - m ≡ 1 = omega (arith, full) in
      trim-long m (newest m es ++ (e ∷ [])) (omega (arith, full))
      ∙ ap (λ n. drop n (newest m es ++ (e ∷ []))) one
      ∙ ap (drop 1) (sym (drop-append_left (length es - m) es (e ∷ []) (omega arith)))
      ∙ drop-drop 1 (length es - m) _ (es ++ (e ∷ []))
          (omega (arith, length-append es (e ∷ []), long))
]

-- Events are published one after the other, each with the time at which that happens.
unfoldable pub record_all : List (ℕ × Event) → Bus → Bus
record_all [] b = b
record_all ((now, e) ∷ es) b = record_all es (publish_recent now e b).0

abbrev pub stamps : List (ℕ × Event) → List Event
stamps es = map (λ (p : ℕ × Event). stamp p.0 p.1) es

record_all-newest :
    (es : List (ℕ × Event)) (b : Bus) (before : List Event)
    → b.recent ≡ newest b.max_recent before
    → (record_all es b).recent ≡ newest b.max_recent (before ++ stamps es)
unfolding record_all publish_recent
record_all-newest [] b before h = h ∙ ap (newest b.max_recent) (sym (append-nil before))
record_all-newest ((now, e) ∷ es) b before h =
    record_all-newest es _ (before ++ (stamp now e ∷ [])) (
      ap (λ r. trim b.max_recent (r ++ (stamp now e ∷ []))) h
      ∙ trim-newest b.max_recent before (stamp now e))
    ∙ ap (newest b.max_recent) (append_assoc before (stamp now e ∷ []) (stamps es))

-- After any events the window of a new bus holds the newest thousand of them, in their order.
pub record_all-recent :
    (es : List (ℕ × Event)) → (record_all es new_bus).recent ≡ newest 1000 (stamps es)
unfolding new_bus
record_all-recent es = record_all-newest es new_bus [] refl
