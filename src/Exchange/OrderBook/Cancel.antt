-- ===== src/Exchange/OrderBook/Cancel.antt =====
-- `cancel` of exchange/matcher/me_order_book.cpp on any book: its outcomes.
use mathlib.Core.List.{append_assoc}
use trading_ecosystem.Prelude.{
  ℕ, ◌≤◌, ◌<◌, ◌≡◌, refl, ap, ◌∙◌, ◌⊎◌, inl, inr, true, false, none, some, [], ◌∷◌, ◌++◌, arith,
  ltb, ◌==◌, if◌then◌else◌, Bool-cases, Option-cases, Fault, out_of_range, Outcome, ok, failed,
}
use trading_ecosystem.Common.Types.{me_max_num_clients, me_max_order_ids}
use trading_ecosystem.Common.MemPool.{free_at}
use trading_ecosystem.Exchange.OrderBook.State.{Book, order, send}
use trading_ecosystem.Exchange.OrderBook.Orders.{remove_order}
use trading_ecosystem.Exchange.OrderBook.Removal.{remove_order-Freed}
use trading_ecosystem.Exchange.OrderBook.Matching.{
  cancel_order, find_order, cancel_rejected_response, canceled_response, cancel_update,
}

-- The order at `o` is out of the pool, no other one is, and the market and the client are told of it.
pub record Cancelled (client_id order_id ticker_id o : ℕ) (b b' : Book) : Type 0 where
  pub known : b.cid_oid_to_order client_id order_id ≡ some o
  pub used : free_at b.order_pool o ≡ false
  pub free : (i : ℕ) → free_at b'.order_pool i ≡ (if o == i then true else free_at b.order_pool i)
  pub events :
      b'.events
      ≡ b.events
        ++ cancel_update ticker_id (order b o)
          ∷ canceled_response client_id order_id ticker_id (order b o)
          ∷ []

-- The outcomes of a cancel: the identifier is refused by a bounds check, the order is unknown and the book stays as it is, the order is removed, or the book's lists are broken.
pub data Answer (client_id order_id ticker_id : ℕ) (b : Book) (m : Outcome Book) : Type 0 where
  refused :
      client_id < me_max_num_clients
      → me_max_order_ids ≤ order_id
      → m ≡ failed out_of_range
      → Answer client_id order_id ticker_id b m
  unknown_client :
      me_max_num_clients ≤ client_id
      → m ≡ ok (send (cancel_rejected_response client_id order_id ticker_id) b)
      → Answer client_id order_id ticker_id b m
  unknown :
      b.cid_oid_to_order client_id order_id ≡ none
      → m ≡ ok (send (cancel_rejected_response client_id order_id ticker_id) b)
      → Answer client_id order_id ticker_id b m
  removed :
      (o : ℕ) (b' : Book)
      → m ≡ ok b'
      → Cancelled client_id order_id ticker_id o b b'
      → Answer client_id order_id ticker_id b m
  broken :
      (o : ℕ) (f : Fault)
      → b.cid_oid_to_order client_id order_id ≡ some o
      → remove_order o b ≡ failed f
      → m ≡ failed f
      → Answer client_id order_id ticker_id b m

Outcome-cases :
    {A : Type 0} (m : Outcome A) → ((a : A) × (m ≡ ok a)) ⊎ ((f : Fault) × (m ≡ failed f))
Outcome-cases (ok a) = inl (a, refl)
Outcome-cases (failed f) = inr (f, refl)

removal-Cancelled :
    (c i t o : ℕ) (b b1 : Book)
    → b.cid_oid_to_order c i ≡ some o
    → remove_order o b ≡ ok b1
    → Cancelled c i t o b
        (send (canceled_response c i t (order b o)) (send (cancel_update t (order b o)) b1))
removal-Cancelled c i t o b b1 e r =
    let f = remove_order-Freed o b b1 r in
    record {
      known = e;
      used = f.used;
      free = f.free;
      events =
          append_assoc b1.events _ _
          ∙ ap (λ l. l ++ cancel_update t (order b o) ∷ canceled_response c i t (order b o) ∷ [])
              f.events;
    }

-- Every call of `cancel`, on any book, ends in one of these ways: for a client in range and an order identifier out of range it stops on the bounds check; for a client out of range or an order that the client does not have it sends a rejection and changes nothing else; else it stops on the fault of `removeOrder`, or it takes exactly the client's order out of the pool and sends the cancel to the market and then the answer to the client.
pub cancel_order-Answer : (c i t : ℕ) (b : Book) → Answer c i t b (cancel_order c i t b)
unfolding cancel_order find_order
cancel_order-Answer c i t b = elim (Bool-cases (ltb c me_max_num_clients)) [
  | inr e ↦ unknown_client (ground arith) (rw e refl)
  | inl e ↦ elim (Bool-cases (ltb i me_max_order_ids)) [
    | inr e1 ↦ refused (ground arith) (ground arith) (rw (e, e1) refl)
    | inl e1 ↦ elim (Option-cases (b.cid_oid_to_order c i)) [
      | inl e2 ↦ unknown e2 (rw (e, e1, e2) refl)
      | inr (o, e2) ↦ elim (Outcome-cases (remove_order o b)) [
        | inl (b1, e3) ↦
            removed o _ (rw (e, e1, e2, e3) refl) (removal-Cancelled c i t o b b1 e2 e3)
        | inr (f, e3) ↦ broken o f e2 e3 (rw (e, e1, e2, e3) refl)
      ]
    ]
  ]
]
