-- ===== src/Common/TcpSocket/Frames.antt =====
-- Messages of a fixed size in a stream of bytes that is read in pieces.
use mathlib.Core.List.{append_assoc, append-nil}
use native.Mathlib.Decide.{dec_lt}
use trading_ecosystem.Prelude.{
  ℕ, zero, suc, ◌-◌, ◌≤◌, ◌<◌, ◌≡◌, refl, sym, ap, ◌∙◌, inl, inr, true, false, List, [], ◌∷◌, ◌++◌,
  arith, leb, Bool-cases, length, length-append, All,
}
use trading_ecosystem.Common.TcpSocket.{take, drop, frames_loop, frames}

module _ {A : Type 0} where
  length-drop : (k : ℕ) (xs : List A) → length (drop k xs) ≡ length xs - k
  length-drop zero xs = omega arith
  length-drop (suc k) [] = omega arith
  length-drop (suc k) (x ∷ xs) = omega (arith, length-drop k xs)

  take-append : (k : ℕ) (xs ys : List A) → k ≤ length xs → take k (xs ++ ys) ≡ take k xs
  take-append zero xs ys h = refl
  take-append (suc k) [] ys h = absurd (omega arith)
  take-append (suc k) (x ∷ xs) ys h = ap (λ l. x ∷ l) (take-append k xs ys (omega arith))

  drop-append : (k : ℕ) (xs ys : List A) → k ≤ length xs → drop k (xs ++ ys) ≡ drop k xs ++ ys
  drop-append zero xs ys h = refl
  drop-append (suc k) [] ys h = absurd (omega arith)
  drop-append (suc k) (x ∷ xs) ys h = drop-append k xs ys (omega arith)

  take-all : (k : ℕ) (xs ys : List A) → length xs ≡ k → take k (xs ++ ys) ≡ xs
  take-all zero [] ys h = refl
  take-all (suc k) [] ys h = absurd (omega (arith, h))
  take-all zero (x ∷ xs) ys h = absurd (omega (arith, h))
  take-all (suc k) (x ∷ xs) ys h = ap (λ l. x ∷ l) (take-all k xs ys (omega (arith, h)))

  drop-all : (k : ℕ) (xs ys : List A) → length xs ≡ k → drop k (xs ++ ys) ≡ ys
  drop-all zero [] ys h = refl
  drop-all (suc k) [] ys h = absurd (omega (arith, h))
  drop-all zero (x ∷ xs) ys h = absurd (omega (arith, h))
  drop-all (suc k) (x ∷ xs) ys h = drop-all k xs ys (omega (arith, h))

  take-drop : (k : ℕ) (xs : List A) → take k xs ++ drop k xs ≡ xs
  take-drop zero xs = refl
  take-drop (suc k) [] = refl
  take-drop (suc k) (x ∷ xs) = ap (λ l. x ∷ l) (take-drop k xs)

  -- The messages of a connection that is read in pieces, the rest of each read being kept for the next one.
  unfoldable pub frames_of_reads : ℕ → List A → List (List A) → List (List A) × List A
  frames_of_reads k buffer [] = ([], buffer)
  frames_of_reads k buffer (r ∷ reads) =
      let now = frames k (buffer ++ r) in
      let later = frames_of_reads k now.1 reads in (now.0 ++ later.0, later.1)

  abbrev pub concat : List (List A) → List A
  concat [] = []
  concat (xs ∷ xss) = xs ++ concat xss

  module _ (k : ℕ) (pos : 0 < k) where
    -- Rounds that are not needed change nothing.
    frames_loop-fuel :
        (f g : ℕ) (buffer : List A)
        → length buffer < f
        → length buffer < g
        → frames_loop f k buffer ≡ frames_loop g k buffer
    unfolding frames_loop
    frames_loop-fuel zero g buffer h h' = absurd (omega arith)
    frames_loop-fuel (suc f) zero buffer h h' = absurd (omega arith)
    frames_loop-fuel (suc f) (suc g) buffer h h' = elim (Bool-cases (leb k (length buffer))) [
      | inl e ↦ rw e (
          ap (λ (r : List (List A) × List A). (take k buffer ∷ r.0, r.1))
            (frames_loop-fuel f g (drop k buffer) (ground (arith, length-drop k buffer))
              (ground (arith, length-drop k buffer))))
      | inr e ↦ rw e refl
    ]

    frames_loop_more :
        (f : ℕ) (buffer : List A)
        → leb k (length buffer) ≡ true
        → frames_loop (suc f) k buffer ≡ (
          take k buffer ∷ (frames_loop f k (drop k buffer)).0,
          (frames_loop f k (drop k buffer)).1,
        )
    unfolding frames_loop
    frames_loop_more f buffer e = rw e refl

    frames_loop_end :
        (f : ℕ) (buffer : List A)
        → leb k (length buffer) ≡ false
        → frames_loop (suc f) k buffer ≡ ([], buffer)
    unfolding frames_loop
    frames_loop_end f buffer e = rw e refl

    frames-take :
        (buffer : List A)
        → k ≤ length buffer
        → frames k buffer
          ≡ (take k buffer ∷ (frames k (drop k buffer)).0, (frames k (drop k buffer)).1)
    unfolding frames
    frames-take buffer h =
        frames_loop_more (length buffer) buffer (ground arith)
        ∙ ap (λ (r : List (List A) × List A). (take k buffer ∷ r.0, r.1))
            (frames_loop-fuel (length buffer) (suc (length (drop k buffer))) (drop k buffer)
              (omega (arith, length-drop k buffer)) (omega arith))

    frames-end : (buffer : List A) → length buffer < k → frames k buffer ≡ ([], buffer)
    unfolding frames
    frames-end buffer h = frames_loop_end (length buffer) buffer (ground arith)

    -- Bytes that come later do not change the messages that are complete.
    frames-append :
        (n : ℕ) (xs ys : List A)
        → length xs ≤ n
        → frames k (xs ++ ys) ≡ (
          (frames k xs).0 ++ (frames k ((frames k xs).1 ++ ys)).0,
          (frames k ((frames k xs).1 ++ ys)).1,
        )
    frames-append zero xs ys h = rw (frames-end xs (omega arith)) refl
    frames-append (suc n) xs ys h = elim (dec_lt (length xs) k) [
      | yes short ↦ rw (frames-end xs short) refl
      | no long ↦ rw (frames-take xs (omega arith)) (
          frames-take (xs ++ ys) (omega (arith, length-append xs ys))
          ∙ rw (take-append k xs ys (omega arith), drop-append k xs ys (omega arith))
              (ap (λ (r : List (List A) × List A). (take k xs ∷ r.0, r.1))
                (frames-append n (drop k xs) ys (omega (arith, length-drop k xs)))))
    ]

    frames-rest : (n : ℕ) (xs : List A) → length xs ≤ n → length (frames k xs).1 < k
    frames-rest zero xs h = rw (frames-end xs (omega arith)) (omega arith)
    frames-rest (suc n) xs h = elim (dec_lt (length xs) k) [
      | yes short ↦ rw (frames-end xs short) short
      | no long ↦
          rw (frames-take xs (omega arith))
            (frames-rest n (drop k xs) (omega (arith, length-drop k xs)))
    ]

    frames_of_reads-concat :
        (buffer : List A) (reads : List (List A))
        → length buffer < k
        → frames_of_reads k buffer reads ≡ frames k (buffer ++ concat reads)
    unfolding frames_of_reads
    frames_of_reads-concat buffer [] h = sym (rw append-nil (frames-end buffer h))
    frames_of_reads-concat buffer (r ∷ reads) h =
        let xs = buffer ++ r in
        let rest =
          frames_of_reads-concat (frames k xs).1 reads (frames-rest (length xs) xs (omega arith)) in
        rw rest (
          sym (frames-append (length xs) xs (concat reads) (omega arith))
          ∙ ap (frames k) (append_assoc buffer r (concat reads)))

    frames-join :
        (n : ℕ) (xs : List A) → length xs ≤ n → concat (frames k xs).0 ++ (frames k xs).1 ≡ xs
    frames-join zero xs h = rw (frames-end xs (omega arith)) refl
    frames-join (suc n) xs h = elim (dec_lt (length xs) k) [
      | yes short ↦ rw (frames-end xs short) refl
      | no long ↦ rw (frames-take xs (omega arith)) (
          append_assoc (take k xs) _ _
          ∙ ap (λ l. take k xs ++ l) (frames-join n (drop k xs) (omega (arith, length-drop k xs)))
          ∙ take-drop k xs)
    ]

    -- Messages of the fixed size one behind the other are taken apart again.
    frames-concat :
        (ms : List (List A)) → All (λ m. length m ≡ k) ms → frames k (concat ms) ≡ (ms, [])
    frames-concat [] h = frames-end [] pos
    frames-concat (m ∷ ms) h =
        frames-take (m ++ concat ms) (omega (arith, h.0, length-append m (concat ms)))
        ∙ rw (take-all k m (concat ms) h.0, drop-all k m (concat ms) h.0)
            (ap (λ (r : List (List A) × List A). (m ∷ r.0, r.1)) (frames-concat ms h.1))

    -- A sender writes messages of the fixed size one behind the other, and the receiver has read a part of that stream, cut into reads in any way. The messages that it has taken are the first ones, unchanged and in order; what it keeps in its buffer is shorter than a message, and together with the rest of the stream makes up the other messages.
    pub frames_of_reads-sent :
        (ms reads : List (List A)) (unread : List A)
        → All (λ m. length m ≡ k) ms
        → concat reads ++ unread ≡ concat ms
        → (later : List (List A)) × (ms ≡ (frames_of_reads k [] reads).0 ++ later)
          × (concat later ≡ (frames_of_reads k [] reads).1 ++ unread)
          × (length (frames_of_reads k [] reads).1 < k)
    frames_of_reads-sent ms reads unread sized e =
        let xs = concat reads in
        let left = (frames k xs).1 ++ unread in
        let whole : frames k (xs ++ unread) ≡ (ms, []) = ap (frames k) e ∙ frames-concat ms sized in
        let cut = sym (frames-append (length xs) xs unread (omega arith)) ∙ whole in
        let none_left : (frames k left).1 ≡ [] = ap (λ (r : List (List A) × List A). r.1) cut in
        rw (frames_of_reads-concat [] reads pos) (
          (frames k left).0,
          sym (ap (λ (r : List (List A) × List A). r.0) cut),
          sym (append-nil _)
              ∙ ap (λ l. concat (frames k left).0 ++ l) (sym none_left)
              ∙ frames-join (length left) left (omega arith),
          frames-rest (length xs) xs (omega arith),
        )
