-- ===== src/Common/LfQueue/Writes.antt =====
-- Several messages that one writer writes to a queue of common/lf_queue.h, one after the other.
use mathlib.Core.List.{append_assoc, append-nil}
use trading_ecosystem.Prelude.{
  ℕ, suc, ◌+◌, ◌%◌, ◌≤◌, ◌<◌, ◌≡◌, refl, sym, ap, ◌∙◌, List, [], ◌∷◌, ◌++◌, arith, length,
}
use trading_ecosystem.Common.LfQueue.{LfQueue, push}
use trading_ecosystem.Common.LfQueue.Fifo.{IsValid, unread, push-append, round-ne, next-mod}

abbrev pub concat : {T : Type 0} → List (List T) → List T
concat [] = []
concat (xs ∷ xss) = xs ++ concat xss

module _ {T : Type 0} where
  unfoldable pub push_list : List T → LfQueue T → LfQueue T
  push_list [] q = q
  push_list (x ∷ xs) q = push_list xs (push q x)

  pub push_list-append :
      (xs ys : List T) (q : LfQueue T) → push_list (xs ++ ys) q ≡ push_list ys (push_list xs q)
  unfolding push_list
  push_list-append [] ys q = refl
  push_list-append (x ∷ xs) ys q = push_list-append xs ys (push q x)

  pub num-push :
      (q : LfQueue T) (x : T)
      → ((push q x).num_elements ≡ q.num_elements + 1) × ((push q x).size ≡ q.size)
  unfolding push
  num-push q x = (refl, refl)

  -- Messages for which there is room are behind what was unread.
  pub push_list-unread :
      (xs : List T) (q : LfQueue T)
      → IsValid q
      → q.num_elements + length xs ≤ q.size
      → IsValid (push_list xs q)
        × (unread (push_list xs q) ≡ unread q ++ xs)
        × ((push_list xs q).num_elements ≡ q.num_elements + length xs)
        × ((push_list xs q).size ≡ q.size)
  unfolding push_list
  push_list-unread [] q v room = (v, sym (append-nil (unread q)), omega arith, refl)
  push_list-unread (x ∷ xs) q v room =
      let (v1, e1) = push-append q x v (omega arith) in
      let (n, m) = num-push q x in
      let (v2, e2, n2, m2) = push_list-unread xs (push q x) v1 (omega arith) in
      (v2, e2 ∙ ap (λ l. l ++ xs) e1 ∙ append_assoc (unread q) (x ∷ []) xs, omega arith, m2 ∙ m)

  -- A write leaves the slot before the read index as it is while there is a slot to spare.
  push-store :
      (x : T) (q : LfQueue T) (slot : ℕ)
      → IsValid q
      → slot < q.size
      → q.next_read_index ≡ (slot + 1) % q.size
      → q.num_elements + 1 < q.size
      → (push q x).store slot ≡ q.store slot
  unfolding push
  push-store x q slot v inside before room =
      let at : q.next_write_index ≡ (slot + suc q.num_elements) % q.size =
        v.write_at
        ∙ ap (λ i. (i + q.num_elements) % q.size) before
        ∙ next-mod q.size slot q.num_elements in
      ground (arith, at, round-ne q.size slot q.num_elements)

  pub push_list-store :
      (xs : List T) (q : LfQueue T) (slot : ℕ)
      → IsValid q
      → slot < q.size
      → q.next_read_index ≡ (slot + 1) % q.size
      → q.num_elements + length xs < q.size
      → (push_list xs q).store slot ≡ q.store slot
  unfolding push_list push
  push_list-store [] q slot v inside before room = refl
  push_list-store (x ∷ xs) q slot v inside before room =
      let (v1, e1) = push-append q x v (omega arith) in
      push_list-store xs (push q x) slot v1 inside before (omega arith)
      ∙ push-store x q slot v inside before (omega arith)
