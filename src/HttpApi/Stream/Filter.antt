-- ===== src/HttpApi/Stream/Filter.antt =====
-- Which events pass the filters of a stream.
use distributed_fault_tolera.Prelude.{
  ℕ, ◌≤◌, Bytes, [], ◌∷◌, true, false, ◌≡◌, ◌≢◌, ◌⊎◌, ◌↔◌, arith, ℤ, IsInt, eq_bytes, eq_bytes_iff,
  ap, ◌∙◌,
}
use distributed_fault_tolera.Events.{EventType, Event}
use distributed_fault_tolera.HttpApi.Text.{codes, show_int}
use distributed_fault_tolera.HttpApi.Text.Numbers.{show_int_inj, show_int-cons}
use distributed_fault_tolera.HttpApi.Stream.{is_heartbeat, is_election, matches_filter}

-- The filter that names the node `k`.
show_int-ne : (k : ℤ) (c : ℕ) (s : Bytes) → b'a' ≤ c → show_int k ≢ c ∷ s
show_int-ne k c s small e = let (d, t, f, low) = show_int-cons k in ground (arith, f, e, low, small)

show_int-named :
    (k : ℤ) → (eq_bytes (show_int k) [] ≡ false) × (eq_bytes (show_int k) (codes "all") ≡ false)
unfolding eq_bytes
show_int-named k =
    let (c, s, e, low) = show_int-cons k in
    (ap (λ b. eq_bytes b []) e, ap (λ b. eq_bytes b (codes "all")) e ∙ ground (arith, low))

show_int_iff : (a k : ℤ) → IsInt a → IsInt k → (eq_bytes (show_int a) (show_int k) ≡ true) ↔ (a ≡ k)
show_int_iff a k p q = (
  λ e. show_int_inj a k p q ((eq_bytes_iff (show_int a) (show_int k)).0 e),
  λ e. (eq_bytes_iff (show_int a) (show_int k)).1 (ap show_int e),
)

-- The events of a category; a category that is neither of the two has all events.
abbrev pub InCategory : EventType → Bytes → Type 0
InCategory kind category =
    (category ≡ codes "heartbeats" → is_heartbeat kind ≡ true)
    × (category ≡ codes "elections" → is_election kind ≡ true)

-- No event is in both categories.
pub is_heartbeat-is_election :
    (kind : EventType) → is_heartbeat kind ≡ true → is_election kind ≡ false
unfolding is_heartbeat is_election
is_heartbeat-is_election kind h = ground (arith, h)

-- With the filter that names a node, exactly the events pass that come from the node or name it as
-- the peer, and are in the category. The ids are `int`s.
pub matches_filter_iff :
    (e : Event) (k : ℤ) (category : Bytes)
    → IsInt e.node_id
    → IsInt e.peer_id
    → IsInt k
    → (matches_filter e (show_int k) category ≡ true)
      ↔ (((e.node_id ≡ k) ⊎ (e.peer_id ≡ k)) × InCategory e.kind category)
unfolding matches_filter
matches_filter_iff e k category p q r = ground (
  arith,
  show_int-named k,
  show_int_iff e.node_id k p r,
  show_int_iff e.peer_id k q r,
  eq_bytes_iff category (codes "heartbeats"),
  eq_bytes_iff category (codes "elections"),
)
