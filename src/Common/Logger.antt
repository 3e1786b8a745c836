-- ===== src/Common/Logger.antt =====
-- common/logging.h: `log` turns a format string and its arguments into elements of a queue, and the
-- logger's thread writes the elements of the queue to a file. Texts are lists of character codes,
-- without the terminating 0. How `std::ofstream` prints the numbers is an argument.
pub mod Format
pub mod Flush
use trading_ecosystem.Prelude.{
  ℕ, zero, suc, ◌+◌, ◌-◌, ◌*◌, ◌/◌, ◌%◌, ◌^◌, ◌≤◌, ◌<◌, min, ◌≡◌, refl, sym, ap, ◌∙◌, ◌≢◌, ◌↔◌, ◌⊎◌,
  inl, inr, Bool, true, false, not, ◌&&◌, ◌||◌, Option, none, some, List, [], ◌∷◌, ◌++◌, map, arith,
  ltb, leb, ◌==◌, if◌then◌else◌, ==_iff, ==_refl, Bool-cases, Option-cases, length, length-append,
  length-Perm, nil_of_length, update, All, All-append, Fault, assertion, null_pointer, out_of_range,
  out_of_fuel, Outcome, ok, failed, ◌>>=◌, ◌>>◌, assert, in_range, deref, >>=-eq-ok, >>=-cong,
  >>=-assoc, >>=-≢, deref-fuel, count_below, count_below-le, count_below-same, count_below-cleared,
}
use trading_ecosystem.Prelude.Int.{ℤ}
use trading_ecosystem.Common.LfQueue.{LfQueue, push}
use trading_ecosystem.Common.LfQueue.Drain.{drain}

abbrev pub percent : ℕ
percent = b'%'

-- An argument type stands for `float` and one for `double`, of which the logger knows nothing.
module _ (Float Double : Type 0) where
  -- `LogElement`, with its `LogType`
  pub data LogElement : Type 0 where
    char : ℕ → LogElement
    integer long_integer long_long_integer : ℤ → LogElement
    unsigned_integer unsigned_long_integer unsigned_long_long_integer : ℕ → LogElement
    float : Float → LogElement
    double : Double → LogElement

-- The types that the overloads of `pushValue` take: one element, or a text.
pub data Value (Element : Type 0) : Type 0 where
  element : Element → Value Element
  text : List ℕ → Value Element

module _ {Float Double : Type 0} where
  -- `pushValue(const char *)`, which pushes each character
  unfoldable pub push_text :
      List ℕ → LfQueue (LogElement Float Double) → LfQueue (LogElement Float Double)
  push_text [] q = q
  push_text (c ∷ cs) q = push_text cs (push q (char c))

  unfoldable pub push_value :
      Value (LogElement Float Double)
      → LfQueue (LogElement Float Double)
      → LfQueue (LogElement Float Double)
  push_value (element e) q = push q e
  push_value (text cs) q = push_text cs q

  -- Both overloads of `log`: without arguments, and with one or more.
  unfoldable pub log :
      List ℕ
      → List (Value (LogElement Float Double))
      → LfQueue (LogElement Float Double)
      → Outcome (LfQueue (LogElement Float Double))
  log [] [] q = ok q
  log [] (v ∷ vs) q = failed assertion
  log (c ∷ []) [] q = if c == percent then failed assertion else ok (push q (char c))
  log (c ∷ []) (v ∷ vs) q = if c == percent then log [] vs (push_value v q) else failed assertion
  log (c ∷ d ∷ s) [] q =
      let escaped = log s [] (push q (char d)) in
      let plain = log (d ∷ s) [] (push q (char c)) in
      if c == percent then (if d == percent then escaped else failed assertion) else plain
  log (c ∷ d ∷ s) (v ∷ vs) q =
      let escaped = log s (v ∷ vs) (push q (char d)) in
      let substituted = log (d ∷ s) vs (push_value v q) in
      let plain = log (d ∷ s) (v ∷ vs) (push q (char c)) in
      if c == percent then (if d == percent then escaped else substituted) else plain

  module _ (show : LogElement Float Double → List ℕ) where
    -- The `switch` of `flushQueue`: a character is written as it is.
    unfoldable pub text_of : LogElement Float Double → List ℕ
    text_of (char c) = c ∷ []
    text_of e = show e

    unfoldable pub write_element : LogElement Float Double → List ℕ → Outcome (List ℕ)
    write_element e file = ok (file ++ text_of e)

    -- One round of the loop of `flushQueue`: it empties the queue.
    unfoldable pub flush_queue :
        ℕ
        → LfQueue (LogElement Float Double)
        → List ℕ
        → Outcome (LfQueue (LogElement Float Double) × List ℕ)
    unfolding write_element
    flush_queue fuel q file = drain write_element fuel q file
