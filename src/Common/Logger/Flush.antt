-- ===== src/Common/Logger/Flush.antt =====
-- From `log` through the queue to the file of `flushQueue`, in common/logging.h.
use mathlib.Core.List.{append_assoc, append-nil}
use trading_ecosystem.Prelude.{
  ℕ, ◌+◌, ◌≤◌, ◌≡◌, refl, sym, ap, ◌∙◌, some, List, [], ◌∷◌, ◌++◌, length, ok, ◌>>=◌,
}
use trading_ecosystem.Common.LfQueue.Writes.{push_list, push_list-unread}
use trading_ecosystem.Common.LfQueue.{LfQueue}
use trading_ecosystem.Common.LfQueue.Fifo.{IsValid, unread}
use trading_ecosystem.Common.LfQueue.Drain.{drain, run_all, drain-run_all}
use trading_ecosystem.Common.Logger.{
  LogElement, char, integer, long_integer, long_long_integer, unsigned_integer,
  unsigned_long_integer, unsigned_long_long_integer, float, double, Value, log, text_of,
  write_element, flush_queue,
}
use trading_ecosystem.Common.Logger.Format.{tokens, fill, logged, log-fill}

module _ {Float Double : Type 0} where
  module _ (show : LogElement Float Double → List ℕ) where
    -- What the file should get: each character as it is, and the text of each number.
    unfoldable pub printed : List (LogElement Float Double) → List ℕ
    printed [] = []
    printed (char c ∷ es) = c ∷ printed es
    printed (integer n ∷ es) = show (integer n) ++ printed es
    printed (long_integer n ∷ es) = show (long_integer n) ++ printed es
    printed (long_long_integer n ∷ es) = show (long_long_integer n) ++ printed es
    printed (unsigned_integer n ∷ es) = show (unsigned_integer n) ++ printed es
    printed (unsigned_long_integer n ∷ es) = show (unsigned_long_integer n) ++ printed es
    printed (unsigned_long_long_integer n ∷ es) = show (unsigned_long_long_integer n) ++ printed es
    printed (float x ∷ es) = show (float x) ++ printed es
    printed (double x ∷ es) = show (double x) ++ printed es

    text_of-printed :
        (e : LogElement Float Double) (es : List (LogElement Float Double))
        → text_of show e ++ printed es ≡ printed (e ∷ es)
    unfolding text_of printed
    text_of-printed (char c) es = refl
    text_of-printed (integer n) es = refl
    text_of-printed (long_integer n) es = refl
    text_of-printed (long_long_integer n) es = refl
    text_of-printed (unsigned_integer n) es = refl
    text_of-printed (unsigned_long_integer n) es = refl
    text_of-printed (unsigned_long_long_integer n) es = refl
    text_of-printed (float x) es = refl
    text_of-printed (double x) es = refl

    run_all-printed :
        (es : List (LogElement Float Double)) (file : List ℕ)
        → run_all (write_element show) es file ≡ ok (file ++ printed es)
    unfolding run_all write_element printed
    run_all-printed [] file = ap (λ x. ok x) (sym (append-nil file))
    run_all-printed (e ∷ es) file =
        run_all-printed es (file ++ text_of show e)
        ∙ ap (λ x. ok x) (append_assoc file (text_of show e) (printed es))
        ∙ ap (λ l. ok (file ++ l)) (text_of-printed e es)

    -- A call of `log` with as many arguments as placeholders, on an empty queue with room for what it writes, succeeds, and the logger's thread then empties the queue and appends to the file the format with the arguments in place of the placeholders, its characters as they are and the text of each number.
    pub flush_queue-log :
        (s : List ℕ) (vs : List (Value (LogElement Float Double)))
        (es : List (LogElement Float Double)) (q : LfQueue (LogElement Float Double))
        (file : List ℕ)
        → IsValid q
        → unread q ≡ []
        → fill (tokens s) vs ≡ some es
        → q.num_elements + length es ≤ q.size
        → (q1 : LfQueue (LogElement Float Double)) × (q2 : LfQueue (LogElement Float Double)) × (log
              s vs q
            ≡ ok q1)
          × (flush_queue show (length es + 1) q1 file ≡ ok (q2, file ++ printed es))
          × IsValid q2
          × (unread q2 ≡ [])
    unfolding flush_queue
    flush_queue-log s vs es q file v empty filled room =
        let (v1, e1, count, size) = push_list-unread es q v room in
        let held : unread (push_list es q) ≡ es = e1 ∙ ap (λ l. l ++ es) empty in
        let (q2, v2, e2, ran) = drain-run_all (write_element show) (push_list es q) v1 in
        (
          push_list es q,
          q2,
          log-fill s vs q ∙ ap (λ o. logged o q) filled,
          (ap (λ l. drain (write_element show) (length l + 1) (push_list es q) file) (sym held)
              ∙ ran file
              ∙ ap (λ l. run_all (write_element show) l file >>= λ f. ok (q2, f)) held
              ∙ ap (λ o. o >>= λ f. ok (q2, f)) (run_all-printed es file)),
          v2,
          e2,
        )
