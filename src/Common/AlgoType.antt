-- ===== src/Common/AlgoType.antt =====
-- `AlgoType` and `Side` of common/types.h and their names.
use Prim.Native.String.{String}
use text.Mathlib.Text.{◌==◌ as str_eq}
use text.Mathlib.TextEquality.{eq_iff}
use trading_ecosystem.Prelude.{
  ◌≡◌, refl, sym, ap, ◌∙◌, ◌≢◌, ◌⊎◌, inl, inr, false, List, [], ◌∷◌, arith, if◌then◌else◌,
  Bool-cases,
}
use trading_ecosystem.Common.Types.{Side}
use trading_ecosystem.Common.Types

pub data AlgoType : Type 0 where
  invalid random maker taker max : AlgoType

unfoldable pub algo_type_to_string : AlgoType → String
algo_type_to_string random = "RANDOM"
algo_type_to_string maker = "MAKER"
algo_type_to_string taker = "TAKER"
algo_type_to_string invalid = "INVALID"
algo_type_to_string max = "MAX"

-- The values that the loop of `stringToAlgoType` runs through, in its order.
abbrev pub algo_types : List AlgoType
algo_types = invalid ∷ random ∷ maker ∷ taker ∷ max ∷ []

-- The loop of `stringToAlgoType`
unfoldable pub find_algo_type : List AlgoType → String → AlgoType
unfolding algo_type_to_string
find_algo_type [] str = invalid
find_algo_type (t ∷ ts) str =
    if str_eq (algo_type_to_string t) str then t else find_algo_type ts str

unfoldable pub string_to_algo_type : String → AlgoType
unfolding find_algo_type
string_to_algo_type str = find_algo_type algo_types str

unfoldable pub side_to_string : Side → String
side_to_string Types.Side.buy = "BUY"
side_to_string Types.Side.sell = "SELL"
side_to_string Types.Side.invalid = "INVALID"
side_to_string Types.Side.max = "MAX"

-- Every algorithm's name reads back as that algorithm.
pub string_to_algo_type-algo_type_to_string :
    (t : AlgoType) → string_to_algo_type (algo_type_to_string t) ≡ t
unfolding string_to_algo_type
string_to_algo_type-algo_type_to_string invalid = refl
string_to_algo_type-algo_type_to_string random = refl
string_to_algo_type-algo_type_to_string maker = refl
string_to_algo_type-algo_type_to_string taker = refl
string_to_algo_type-algo_type_to_string max = refl

find_algo_type-cases :
    (ts : List AlgoType) (str : String)
    → (algo_type_to_string (find_algo_type ts str) ≡ str) ⊎ (find_algo_type ts str ≡ invalid)
unfolding find_algo_type
find_algo_type-cases [] str = inr refl
find_algo_type-cases (t ∷ ts) str = elim (Bool-cases (str_eq (algo_type_to_string t) str)) [
  | inl e ↦ rw e (inl ((eq_iff _ _).0 e))
  | inr e ↦ rw e (find_algo_type-cases ts str)
]

string_to_algo_type-found :
    (str : String)
    → (algo_type_to_string (string_to_algo_type str) ≡ str) ⊎ (string_to_algo_type str ≡ invalid)
unfolding string_to_algo_type
string_to_algo_type-found str = find_algo_type-cases algo_types str

-- A text reads as the algorithm of that name; a text that is no algorithm's name reads as `INVALID`.
pub string_to_algo_type-cases :
    (str : String)
    → (algo_type_to_string (string_to_algo_type str) ≡ str)
      ⊎ ((string_to_algo_type str ≡ invalid) × ((t : AlgoType) → algo_type_to_string t ≢ str))
string_to_algo_type-cases str =
    elim (Bool-cases (str_eq (algo_type_to_string (string_to_algo_type str)) str)) [
      | inl e ↦ inl ((eq_iff _ _).0 e)
      | inr e ↦ inr (
        unread e,
        λ t h. differs e (
            ap algo_type_to_string
              (ap string_to_algo_type (sym h) ∙ string_to_algo_type-algo_type_to_string t)
            ∙ h),
      )
    ]
  where
    differs :
        str_eq (algo_type_to_string (string_to_algo_type str)) str ≡ false
        → algo_type_to_string (string_to_algo_type str) ≢ str
    differs e h = ground (arith, eq_iff (algo_type_to_string (string_to_algo_type str)) str)

    unread :
        str_eq (algo_type_to_string (string_to_algo_type str)) str ≡ false
        → string_to_algo_type str ≡ invalid
    unread e = elim (string_to_algo_type-found str) [ inl h ↦ absurd (differs e h) | inr h ↦ h ]
