-- ===== src/Common/LfQueue/Drain.antt =====
-- The reading loop of the program's threads over a queue of common/lf_queue.h:
-- `for (auto next = q.getNextToRead(); next; next = q.getNextToRead()) { body; q.updateReadIndex(); }`
use trading_ecosystem.Prelude.{
  ℕ, zero, suc, ◌+◌, ◌<◌, ◌≡◌, refl, sym, ◌∙◌, none, some, List, [], ◌∷◌, arith, length,
  out_of_fuel, Outcome, ok, failed, ◌>>=◌, >>=-cong, >>=-assoc,
}
use trading_ecosystem.Common.LfQueue.{LfQueue, get_next_to_read, update_read_index}
use trading_ecosystem.Common.LfQueue.Fifo.{IsValid, unread, read-cons, read-nil}

module _ {T : Type 0} {S : Type 0} (body : T → S → Outcome S) where
  unfoldable pub drain : ℕ → LfQueue T → S → Outcome (LfQueue T × S)
  drain zero q s = failed out_of_fuel
  drain (suc fuel) q s = elim (get_next_to_read q) [
    | none ↦ ok (q, s)
    | some x ↦ body x s >>= λ s. update_read_index q >>= λ q. drain fuel q s
  ]

  -- The body on each message in turn.
  unfoldable pub run_all : List T → S → Outcome S
  run_all [] s = ok s
  run_all (x ∷ xs) s = body x s >>= run_all xs

  drain-cons :
      (fuel : ℕ) (q q' : LfQueue T) (s : S) (x : T)
      → get_next_to_read q ≡ some x
      → update_read_index q ≡ ok q'
      → drain (suc fuel) q s ≡ (body x s >>= drain fuel q')
  unfolding drain
  drain-cons fuel q q' s x shown read = rw (drain, shown, read) refl

  drain-nil :
      (fuel : ℕ) (q : LfQueue T) (s : S)
      → get_next_to_read q ≡ none
      → drain (suc fuel) q s ≡ ok (q, s)
  unfolding drain
  drain-nil fuel q s e = rw (drain, e) refl

  drain-unread :
      (xs : List T) (fuel : ℕ) (q : LfQueue T)
      → IsValid q
      → unread q ≡ xs
      → length xs < fuel
      → (q' : LfQueue T) × IsValid q'
        × (unread q' ≡ [])
        × ((s : S) → drain fuel q s ≡ (run_all xs s >>= λ s'. ok (q', s')))
  unfolding run_all
  drain-unread xs zero q v e enough = absurd (omega arith)
  drain-unread [] (suc fuel) q v e enough = (q, v, e, λ s. drain-nil fuel q s (read-nil q e).0)
  drain-unread (x ∷ xs) (suc fuel) q v e enough =
      let (shown, (q1, read, v1, e1)) = read-cons q v x xs e in
      let (q', v', emptied, ran) = drain-unread xs fuel q1 v1 e1 (omega arith) in
      (
        q',
        v',
        emptied,
        λ s.
            drain-cons fuel q q1 s x shown read
            ∙ >>=-cong (body x s) _ _ ran
            ∙ sym (>>=-assoc (body x s) (run_all xs) (λ s'. ok (q', s'))),
      )

  -- With one round more than there are messages, the loop runs its body on every unread message, each once and in order, and leaves a valid queue with none unread, whatever the body does to its own state; it stops where the body stops.
  pub drain-run_all :
      (q : LfQueue T)
      → IsValid q
      → (q' : LfQueue T) × IsValid q'
        × (unread q' ≡ [])
        × ((s : S)
            → drain (length (unread q) + 1) q s ≡ (run_all (unread q) s >>= λ s'. ok (q', s')))
  drain-run_all q v = drain-unread (unread q) (length (unread q) + 1) q v refl (omega arith)
