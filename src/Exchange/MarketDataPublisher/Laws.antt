-- ===== src/Exchange/MarketDataPublisher/Laws.antt =====
-- What the market data publisher sends.
use mathlib.Core.List.{append_assoc, append-nil}
use trading_ecosystem.Prelude.{
  ◌+◌, ◌%◌, ◌≤◌, ◌<◌, ◌≡◌, refl, sym, ap, ◌∙◌, none, some, List, [], ◌∷◌, ◌++◌, arith, length,
  length-append, Outcome, ok, ◌>>=◌,
}
use trading_ecosystem.Common.LfQueue.{LfQueue, push, get_next_to_read, update_read_index}
use trading_ecosystem.Common.LfQueue.Fifo.{
  IsValid, unread, push-append, read-cons, read-nil, store-update_read_index,
  get_next_to_read-store,
}
use trading_ecosystem.Common.LfQueue.Writes.{
  push_list, push_list-unread, push_list-store, num-push, concat,
}
use trading_ecosystem.Exchange.Messages.{MeMarketUpdate}
use trading_ecosystem.Exchange.MarketDataPublisher.{
  MarketDataPublisher, numbered, publish_update, publish_loop, number_from,
}

-- The publisher after a round that sends the update `u`
abbrev next : MeMarketUpdate → MarketDataPublisher → MarketDataPublisher
next u p = record {
  next_inc_seq_num = p.next_inc_seq_num + 1;
  incremental = p.incremental ++ numbered p.next_inc_seq_num u ∷ [];
  snapshot_md_updates = push p.snapshot_md_updates (numbered p.next_inc_seq_num u);
}

update_read_index-fields :
    (q q' : LfQueue MeMarketUpdate)
    → update_read_index q ≡ ok q'
    → (q'.size ≡ q.size)
      × (q'.num_elements + 1 ≡ q.num_elements)
      × (q'.next_read_index ≡ (q.next_read_index + 1) % q.size)
unfolding update_read_index
update_read_index-fields q q' e = (ground arith, ground arith, ground arith)

module _ (u : MeMarketUpdate) (rest writes : List MeMarketUpdate) (q : LfQueue MeMarketUpdate)
    (p : MarketDataPublisher) where
  -- The slot still holds the update when it is read again, if the writer keeps within the ring.
  publish_update_lem :
      IsValid q
      → unread q ≡ u ∷ rest
      → q.num_elements + length writes ≤ q.size
      → (q' : LfQueue MeMarketUpdate) × IsValid q'
        × (unread q' ≡ rest ++ writes)
        × (q'.num_elements + 1 ≡ q.num_elements + length writes)
        × (q'.size ≡ q.size)
        × (get_next_to_read q ≡ some u)
        × (publish_update u writes q p ≡ ok (q', next u p))
  unfolding publish_update
  publish_update_lem v e room =
      let (shown, (q1, read, v1, e1)) = read-cons q v u rest e in
      let (size1, num1, index1) = update_read_index-fields q q1 read in
      let (v2, e2, num2, size2) = push_list-unread writes q1 v1 (omega arith) in
      let kept : (push_list writes q1).store q.next_read_index ≡ u =
        push_list-store writes q1 q.next_read_index v1 (omega (arith, v.read_in))
          (index1 ∙ ap (λ n. (q.next_read_index + 1) % n) (sym size1)) (omega arith)
        ∙ ap (λ s. s q.next_read_index) (store-update_read_index q q1 read)
        ∙ get_next_to_read-store q u shown in
      (
        push_list writes q1,
        v2,
        e2 ∙ ap (λ l. l ++ writes) e1,
        omega arith,
        size2 ∙ size1,
        shown,
        rw (read, ◌>>=◌, kept) refl,
      )

-- All of `us` and what was written in the first rounds is sent, in order, with numbers from the next one on, and is in the ring of the snapshot synthesizer.
pub record IsPublished (us : List MeMarketUpdate) (p p' : MarketDataPublisher) : Type 0 where
  pub sent : p'.incremental ≡ p.incremental ++ number_from p.next_inc_seq_num us
  pub valid : IsValid p'.snapshot_md_updates
  pub forwarded :
      unread p'.snapshot_md_updates
      ≡ unread p.snapshot_md_updates ++ number_from p.next_inc_seq_num us
  pub counted : p'.next_inc_seq_num ≡ p.next_inc_seq_num + length us

abbrev pub Published :
    List MeMarketUpdate
    → List (List MeMarketUpdate)
    → MarketDataPublisher
    → Outcome (LfQueue MeMarketUpdate × MarketDataPublisher)
    → Type 0
Published us rounds p result =
    (done : List (List MeMarketUpdate)) × (later : List (List MeMarketUpdate)) × (q' : LfQueue
      MeMarketUpdate)
    × (p' : MarketDataPublisher) × (rounds ≡ done ++ later)
    × (result ≡ ok (q', p'))
    × (unread q' ≡ [])
    × IsPublished (us ++ concat done) p p'

publish_loop_more :
    (writes : List MeMarketUpdate) (rounds : List (List MeMarketUpdate))
    (q q' : LfQueue MeMarketUpdate) (p p' : MarketDataPublisher) (u : MeMarketUpdate)
    → get_next_to_read q ≡ some u
    → publish_update u writes q p ≡ ok (q', p')
    → publish_loop (writes ∷ rounds) q p ≡ publish_loop rounds q' p'
unfolding publish_loop
publish_loop_more writes rounds q q' p p' u shown done = ground arith

publish_loop_empty :
    (writes : List MeMarketUpdate) (rounds : List (List MeMarketUpdate))
    (q : LfQueue MeMarketUpdate) (p : MarketDataPublisher)
    → get_next_to_read q ≡ none
    → publish_loop (writes ∷ rounds) q p ≡ ok (q, p)
unfolding publish_loop
publish_loop_empty writes rounds q p e = ground arith

-- One round, then the others
IsPublished-next :
    (u : MeMarketUpdate) (us us' : List MeMarketUpdate) (p p' : MarketDataPublisher)
    → us' ≡ us
    → IsValid p.snapshot_md_updates
    → p.snapshot_md_updates.num_elements < p.snapshot_md_updates.size
    → IsPublished us' (next u p) p'
    → IsPublished (u ∷ us) p p'
unfolding number_from
IsPublished-next u us us' p p' same v room found =
    let h : IsPublished us (next u p) p' = rw same at found in
    let m = numbered p.next_inc_seq_num u in
    let (v1, e1) = push-append p.snapshot_md_updates m v room in
    record {
      sent = h.sent ∙ append_assoc p.incremental (m ∷ []) _;
      valid = h.valid;
      forwarded =
          h.forwarded
          ∙ ap (λ l. l ++ number_from (p.next_inc_seq_num + 1) us) e1
          ∙ append_assoc (unread p.snapshot_md_updates) (m ∷ []) _;
      counted = omega (arith, h.counted);
    }

publish_loop-Published :
    (us : List MeMarketUpdate) (rounds : List (List MeMarketUpdate)) (q : LfQueue MeMarketUpdate)
    (p : MarketDataPublisher)
    → IsValid q
    → IsValid p.snapshot_md_updates
    → unread q ≡ us
    → q.num_elements + length (concat rounds) ≤ q.size
    → p.snapshot_md_updates.num_elements + length us + length (concat rounds)
      ≤ p.snapshot_md_updates.size
    → length us + length (concat rounds) < length rounds
    → Published us rounds p (publish_loop rounds q p)
unfolding number_from
publish_loop-Published us [] q p v w e room fits enough = absurd (omega arith)
publish_loop-Published [] (writes ∷ rounds) q p v w e room fits enough = (
  [],
  writes ∷ rounds,
  q,
  p,
  refl,
  publish_loop_empty writes rounds q p (read-nil q e).0,
  e,
  record {
    sent = sym (append-nil p.incremental);
    valid = w;
    forwarded = sym (append-nil (unread p.snapshot_md_updates));
    counted = omega arith;
  },
)
publish_loop-Published (u ∷ us) (writes ∷ rounds) q p v w e room fits enough =
    let lens = length-append writes (concat rounds) in
    let (q1, v1, e1, num1, size1, shown, done) =
      publish_update_lem u us writes q p v e (omega arith) in
    let (w1, f1) =
      push-append p.snapshot_md_updates (numbered p.next_inc_seq_num u) w (omega arith) in
    let nums = num-push p.snapshot_md_updates (numbered p.next_inc_seq_num u) in
    let longer = length-append us writes in
    let (ran, later, q', p', split, run, emptied, published) =
      publish_loop-Published (us ++ writes) rounds q1 (next u p) v1 w1 e1 (omega arith)
        (omega arith) (omega arith) in
    (
      writes ∷ ran,
      later,
      q',
      p',
      ap (λ l. writes ∷ l) split,
      publish_loop_more writes rounds q q1 p (next u p) u shown done ∙ run,
      emptied,
      IsPublished-next u (us ++ (writes ++ concat ran)) ((us ++ writes) ++ concat ran) p p'
          (append_assoc us writes (concat ran)) w (omega arith) published,
    )

-- While the matching engine writes to the queue, with room in both rings for what it writes, and a round for each update and one more, the loop of the publisher ends with the queue empty: every update that was in the queue or was written while the loop ran goes out once, in order, numbered without a gap, and the ring of the snapshot synthesizer gets the same messages, although the slot of an update is read again after it was given back.
pub publish_loop-number_from :
    (rounds : List (List MeMarketUpdate)) (q : LfQueue MeMarketUpdate) (p : MarketDataPublisher)
    → IsValid q
    → IsValid p.snapshot_md_updates
    → q.num_elements + length (concat rounds) ≤ q.size
    → p.snapshot_md_updates.num_elements + length (unread q) + length (concat rounds)
      ≤ p.snapshot_md_updates.size
    → length (unread q) + length (concat rounds) < length rounds
    → Published (unread q) rounds p (publish_loop rounds q p)
publish_loop-number_from rounds q p v w room fits enough =
    publish_loop-Published (unread q) rounds q p v w refl room fits enough
