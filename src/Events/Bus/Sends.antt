-- ===== src/Events/Bus/Sends.antt =====
-- When sending to the subscribers panics.
use distributed_fault_tolera.Prelude.{
  if_true, ℕ, zero, suc, ◌≤◌, List, [], ◌∷◌, ◌++◌, true, false, Option, none, some, ◌≡◌, ◌∙◌, refl,
  ap, sym, arith, length, length-append, ltb, ◌==◌, ==_iff, if◌then◌else◌, subst, All, if_elim,
  get_elem?,
}
use distributed_fault_tolera.Events.{Event}
use distributed_fault_tolera.Events.Bus.{
  Channel, Bus, publish_recent, send, send_all, set_channel, publish, unsubscribe, remove_first,
  close, stamp,
}

abbrev IsOpen : Bus → ℕ → Type 0
IsOpen b s = (b.channels s).closed ≡ false

-- A send to an open channel: it stays open, and takes the event if it has room.
pub send-opened :
    (e : Event) (c : Channel)
    → c.closed ≡ false
    → length c.buffer ≤ 256
    → (c' : Channel) × (send e c ≡ some c') × (c'.closed ≡ false) × (length c'.buffer ≤ 256)
unfolding send
send-opened e c h small = (
  (if ltb (length c.buffer) 256 then record c { buffer = c.buffer ++ (e ∷ []) } else c),
  ground (arith, h),
  ground (arith, h),
  ground (arith, small, length-append c.buffer (e ∷ [])),
)

-- Sending keeps every channel that is open so.
Sent : Bus → Bus → Type 0
Sent b b' =
    (b'.subscribers ≡ b.subscribers)
    × (b'.recent ≡ b.recent)
    × ((i : ℕ) → IsOpen b i → IsOpen b' i)
    × ((i : ℕ) → length (b'.channels i).buffer ≤ 256)

set_channel-Sent :
    (sub : ℕ) (c : Channel) (b : Bus)
    → c.closed ≡ false
    → length c.buffer ≤ 256
    → ((i : ℕ) → length (b.channels i).buffer ≤ 256)
    → Sent b (set_channel sub c b)
unfolding Sent set_channel
set_channel-Sent sub c b h room small = (
  refl,
  refl,
  λ i. if_elim (λ (x : Channel). IsOpen b i → x.closed ≡ false) (sub == i) (λ _ _. h) (λ _ k. k),
  λ i. if_elim (λ (x : Channel). length x.buffer ≤ 256) (sub == i) (λ _. room) (λ _. small i),
)

All-map : {P Q : ℕ → Type 0} (xs : List ℕ) → ((i : ℕ) → P i → Q i) → All P xs → All Q xs
All-map [] f h = tt
All-map (x ∷ xs) f (p, ps) = (f x p, All-map xs f ps)

after_send : Event → List ℕ → ℕ → Bus → Option Channel → Option Bus
after_send e subs sub b none = none
after_send e subs sub b (some c) = send_all e subs (set_channel sub c b)

send_all-cons :
    (e : Event) (sub : ℕ) (subs : List ℕ) (b : Bus)
    → send_all e (sub ∷ subs) b ≡ after_send e subs sub b (send e (b.channels sub))
unfolding send_all after_send
send_all-cons e sub subs b = elim (send e (b.channels sub)) [ none ↦ refl | some c ↦ refl ]

send_all-Sent :
    (e : Event) (subs : List ℕ) (b : Bus)
    → All (IsOpen b) subs
    → ((i : ℕ) → length (b.channels i).buffer ≤ 256)
    → (b' : Bus) × (send_all e subs b ≡ some b') × Sent b b'
unfolding Sent after_send send_all
send_all-Sent e [] b opened small = (b, refl, (refl, refl, λ i h. h, small))
send_all-Sent e (sub ∷ subs) b (h, hs) small =
    let (c, sent, open', room) = send-opened e (b.channels sub) h (small sub) in
    let one = set_channel-Sent sub c b open' room small in
    let (b', all, (same, same_recent, keeps, small')) =
      send_all-Sent e subs (set_channel sub c b) (All-map subs one.2 hs) one.3 in
    (
      b',
      send_all-cons e sub subs b ∙ ap (after_send e subs sub b) sent ∙ all,
      (same ∙ one.0, same_recent ∙ one.1, λ i k. keeps i (one.2 i k), small'),
    )

-- Where the channels of the subscribers are open, `Publish` with nothing in between does not panic:
-- it keeps the subscribers and their channels open, fills no buffer over its size, and leaves the
-- window of recent events as its first part has set it.
pub publish-Sent :
    (now : ℕ) (e : Event) (b : Bus)
    → All (λ s. (b.channels s).closed ≡ false) b.subscribers
    → ((i : ℕ) → length (b.channels i).buffer ≤ 256)
    → (b' : Bus) × (publish now e b ≡ some b')
      × (b'.subscribers ≡ b.subscribers)
      × (b'.recent ≡ (publish_recent now e b).0.recent)
      × ((i : ℕ) → (b.channels i).closed ≡ false → (b'.channels i).closed ≡ false)
      × ((i : ℕ) → length (b'.channels i).buffer ≤ 256)
unfolding publish publish_recent Sent
publish-Sent now e b opened small =
    let (b', sent, (same, same_recent, keeps, small')) =
      send_all-Sent (stamp now e) b.subscribers (publish_recent now e b).0 opened small in
    (b', sent, same, same_recent, keeps, small')

send-closed : (e : Event) (c : Channel) → c.closed ≡ true → send e c ≡ none
unfolding send
send-closed e c h = ground (arith, h)

after_send-closed :
    (e : Event) (subs : List ℕ) (s sub : ℕ) (b : Bus) (o : Option Channel)
    → send e (b.channels s) ≡ o
    → (b.channels sub).closed ≡ true
    → ((c : Channel)
        → ((set_channel s c b).channels sub).closed ≡ true
        → send_all e subs (set_channel s c b) ≡ none)
    → after_send e subs s b o ≡ none
unfolding after_send set_channel
after_send-closed e subs s sub b none sent shut rest = refl
after_send-closed e subs s sub b (some c) sent shut rest = rest c (
    if_elim (λ (x : Channel). x.closed ≡ true) (s == sub)
      (λ same.
        let still : (b.channels s).closed ≡ true =
          subst (λ i. (b.channels i).closed ≡ true) (sym ((==_iff s sub).0 same)) shut in
        let lost = send-closed e (b.channels s) still in ground (arith, sent, lost))
      (λ _. shut))

send_all-closed :
    (e : Event) (subs : List ℕ) (b : Bus) (k sub : ℕ)
    → get_elem? subs k ≡ some sub
    → (b.channels sub).closed ≡ true
    → send_all e subs b ≡ none
unfolding after_send
send_all-closed e [] b k sub at shut = cc
send_all-closed e (s ∷ subs) b zero sub at shut =
    send_all-cons e s subs b
    ∙ ap (after_send e subs s b) (
        send-closed e (b.channels s)
          (subst (λ i. (b.channels i).closed ≡ true) (ground (arith, at)) shut))
send_all-closed e (s ∷ subs) b (suc k) sub at shut =
    send_all-cons e s subs b
    ∙ after_send-closed e subs s sub b (send e (b.channels s)) refl shut
        (λ c still. send_all-closed e subs (set_channel s c b) k sub at still)

remove_first-found :
    (subs : List ℕ) (k sub : ℕ)
    → get_elem? subs k ≡ some sub
    → (others : List ℕ) × (remove_first sub subs ≡ some others)
unfolding remove_first
remove_first-found [] k sub at = cc
remove_first-found (s ∷ subs) zero sub at = (subs, ground (arith, at))
remove_first-found (s ∷ subs) (suc k) sub at =
    let (others, found) = remove_first-found subs k sub at in
    ((if s == sub then subs else s ∷ others), ground (arith, found))

unsubscribe-closed :
    (b b' : Bus) (k sub : ℕ)
    → get_elem? b.subscribers k ≡ some sub
    → unsubscribe sub b ≡ some b'
    → (b'.channels sub).closed ≡ true
unfolding unsubscribe close set_channel
unsubscribe-closed b b' k sub at done =
    let (others, found) = remove_first-found b.subscribers k sub at in
    let shut : Channel = record (b.channels sub) { closed = true } in
    let same : set_channel sub shut (record b { subscribers = others }) ≡ b' =
      ground (arith, found, done) in
    subst (λ (x : Bus). (x.channels sub).closed ≡ true) same
      (ap (λ (c : Channel). c.closed) (if_true (b.channels sub) ((==_iff sub sub).1 refl)))

-- The channel of a subscriber that unsubscribes while `Publish` sends is closed, and the send to it
-- panics: the copy of the subscribers, made under the lock, still has it.
pub unsubscribe-panics :
    (now : ℕ) (e : Event) (b b' : Bus) (k sub : ℕ)
    → get_elem? b.subscribers k ≡ some sub
    → unsubscribe sub (publish_recent now e b).0 ≡ some b'
    → send_all (publish_recent now e b).1 (publish_recent now e b).2 b' ≡ none
unfolding publish_recent
unsubscribe-panics now e b b' k sub at done =
    send_all-closed _ b.subscribers b' k sub at
      (unsubscribe-closed (publish_recent now e b).0 b' k sub at done)
