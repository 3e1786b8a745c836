-- ===== src/Common/Logger/Format.antt =====
-- `log` of common/logging.h against a formatter that first reads the format string into tokens.
use trading_ecosystem.Prelude.{
  ℕ, ◌≡◌, refl, sym, ap, ◌∙◌, inl, inr, Option, none, some, List, [], ◌∷◌, ◌++◌, map, ◌==◌,
  if◌then◌else◌, Bool-cases, Option-cases, assertion, Outcome, ok, failed,
}
use trading_ecosystem.Common.LfQueue.Writes.{push_list, push_list-append}
use trading_ecosystem.Common.LfQueue.{LfQueue, push}
use trading_ecosystem.Common.Logger.{
  LogElement, char, Value, element, text, percent, push_text, push_value, log,
}

pub data Token : Type 0 where
  literal : ℕ → Token
  placeholder : Token

-- A format string: `%%` stands for a percent sign, any other `%` for the next argument.
unfoldable pub tokens : List ℕ → List Token
tokens [] = []
tokens (c ∷ []) = if c == percent then placeholder ∷ [] else literal c ∷ []
tokens (c ∷ d ∷ s) =
    let escaped = literal d ∷ tokens s in
    let substituted = placeholder ∷ tokens (d ∷ s) in
    let plain = literal c ∷ tokens (d ∷ s) in
    if c == percent then (if d == percent then escaped else substituted) else plain

module _ {Float Double : Type 0} where
  abbrev pub elements_of : Value (LogElement Float Double) → List (LogElement Float Double)
  elements_of (element e) = e ∷ []
  elements_of (text cs) = map (λ c. char c) cs

  -- Arguments in place of placeholders, if there are as many.
  unfoldable pub fill :
      List Token → List (Value (LogElement Float Double)) → Option (List (LogElement Float Double))
  fill [] [] = some []
  fill [] (v ∷ vs) = none
  fill (literal c ∷ ts) vs = elim (fill ts vs) [ none ↦ none | some es ↦ some (char c ∷ es) ]
  fill (placeholder ∷ ts) [] = none
  fill (placeholder ∷ ts) (v ∷ vs) = elim (fill ts vs) [
    | none ↦ none
    | some es ↦ some (elements_of v ++ es)
  ]

  push_text-push_list :
      (cs : List ℕ) (q : LfQueue (LogElement Float Double))
      → push_text cs q ≡ push_list (map (λ c. char c) cs) q
  unfolding push_text push_list
  push_text-push_list [] q = refl
  push_text-push_list (c ∷ cs) q = push_text-push_list cs (push q (char c))

  push_value-push_list :
      (v : Value (LogElement Float Double)) (q : LfQueue (LogElement Float Double))
      → push_value v q ≡ push_list (elements_of v) q
  unfolding push_value push_list
  push_value-push_list (element e) q = refl
  push_value-push_list (text cs) q = push_text-push_list cs q

  abbrev pub logged :
      Option (List (LogElement Float Double))
      → LfQueue (LogElement Float Double)
      → Outcome (LfQueue (LogElement Float Double))
  logged none q = failed assertion
  logged (some es) q = ok (push_list es q)

  logged-literal :
      (c : ℕ) (ts : List Token) (vs : List (Value (LogElement Float Double)))
      (q : LfQueue (LogElement Float Double))
      → logged (fill (literal c ∷ ts) vs) q ≡ logged (fill ts vs) (push q (char c))
  unfolding fill push_list
  logged-literal c ts vs q = elim (Option-cases (fill ts vs)) [
    | inl e ↦ rw e refl
    | inr (es, e) ↦ rw e refl
  ]

  logged-placeholder :
      (v : Value (LogElement Float Double)) (ts : List Token)
      (vs : List (Value (LogElement Float Double))) (q : LfQueue (LogElement Float Double))
      → logged (fill (placeholder ∷ ts) (v ∷ vs)) q ≡ logged (fill ts vs) (push_value v q)
  unfolding fill
  logged-placeholder v ts vs q = elim (Option-cases (fill ts vs)) [
    | inl e ↦ rw e refl
    | inr (es, e) ↦ rw e (
        ap (λ x. ok x)
          (push_list-append (elements_of v) es q
            ∙ ap (λ x. push_list es x) (sym (push_value-push_list v q))))
  ]

  logged-end : (q : LfQueue (LogElement Float Double)) → ok q ≡ logged (fill [] []) q
  unfolding fill push_list
  logged-end q = refl

  logged-extra :
      (v : Value (LogElement Float Double)) (vs : List (Value (LogElement Float Double)))
      (q : LfQueue (LogElement Float Double))
      → failed assertion ≡ logged (fill [] (v ∷ vs)) q
  unfolding fill
  logged-extra v vs q = refl

  logged-missing :
      (ts : List Token) (q : LfQueue (LogElement Float Double))
      → logged (fill (placeholder ∷ ts) []) q ≡ failed assertion
  unfolding fill
  logged-missing ts q = refl

  -- `log` stops the process exactly if there are more or fewer arguments than placeholders in the format, and else writes to its queue, in order, the format's characters with the arguments in place of the placeholders.
  pub log-fill :
      (s : List ℕ) (vs : List (Value (LogElement Float Double)))
      (q : LfQueue (LogElement Float Double))
      → log s vs q ≡ logged (fill (tokens s) vs) q
  unfolding log tokens
  log-fill [] [] q = logged-end q
  log-fill [] (v ∷ vs) q = logged-extra v vs q
  log-fill (c ∷ []) [] q = elim (Bool-cases (c == percent)) [
    | inl e ↦ rw e (sym (logged-missing [] q))
    | inr e ↦ rw e (logged-end (push q (char c)) ∙ sym (logged-literal c [] [] q))
  ]
  log-fill (c ∷ []) (v ∷ vs) q = elim (Bool-cases (c == percent)) [
    | inl e ↦ rw e (log-fill [] vs (push_value v q) ∙ sym (logged-placeholder v [] vs q))
    | inr e ↦ rw e (logged-extra v vs (push q (char c)) ∙ sym (logged-literal c [] (v ∷ vs) q))
  ]
  log-fill (c ∷ d ∷ s) [] q = elim (Bool-cases (c == percent)) [
    | inl e ↦ elim (Bool-cases (d == percent)) [
      | inl e' ↦
          rw (e, e') (log-fill s [] (push q (char d)) ∙ sym (logged-literal d (tokens s) [] q))
      | inr e' ↦ rw (e, e') (sym (logged-missing (tokens (d ∷ s)) q))
    ]
    | inr e ↦
        rw e (log-fill (d ∷ s) [] (push q (char c)) ∙ sym (logged-literal c (tokens (d ∷ s)) [] q))
  ]
  log-fill (c ∷ d ∷ s) (v ∷ vs) q = elim (Bool-cases (c == percent)) [
    | inl e ↦ elim (Bool-cases (d == percent)) [
      | inl e' ↦
          rw (e, e')
            (log-fill s (v ∷ vs) (push q (char d)) ∙ sym (logged-literal d (tokens s) (v ∷ vs) q))
      | inr e' ↦
          rw (e, e')
            (log-fill (d ∷ s) vs (push_value v q)
              ∙ sym (logged-placeholder v (tokens (d ∷ s)) vs q))
    ]
    | inr e ↦ rw e (
        log-fill (d ∷ s) (v ∷ vs) (push q (char c))
        ∙ sym (logged-literal c (tokens (d ∷ s)) (v ∷ vs) q))
  ]
