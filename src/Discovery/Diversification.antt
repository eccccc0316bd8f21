-- ===== src/Discovery/Diversification.antt =====
-- The caps on the candidates of one category (backend/app/discovery/diversification.py). What the
-- universe provider answers for a symbol is the argument `category_of`; in the code a preliminary
-- and a final candidate go through the same loop, which reads their symbols alone.
use alpha_council.Base.{
  ℕ, suc, String, Option, none, some, List, [], ◌∷◌, if◌then◌else◌, ltb as ltb_ℕ,
}
use alpha_council.Base.Dict.{string_key, Entry, get, put}

-- The `group_by` of the calls.
pub data GroupBy : Type 0 where
  category sector : GroupBy

abbrev pub count_in : Option ℕ → ℕ
count_in none = 0
count_in (some n) = n

-- `category_counts[category]` of a defaultdict(int)
abbrev pub count_of : String → List (Entry String ℕ) → ℕ
count_of key counts = count_in (get key counts)

module _ {C : Type 0} (category_of : C → String) where
  -- the loop over the candidates, on the counts so far
  unfoldable pub diversify : ℕ → List (Entry String ℕ) → List C → List C
  diversify cap counts [] = []
  diversify cap counts (c ∷ cs) =
      let n = count_of (category_of c) counts in
      let kept = diversify cap (put (category_of c) (suc n) counts) cs in
      let skipped = diversify cap counts cs in if ltb_ℕ n cap then c ∷ kept else skipped

  unfoldable pub apply_diversification : List C → ℕ → GroupBy → List C
  apply_diversification candidates max_per_group category = diversify max_per_group [] candidates
  apply_diversification candidates max_per_group sector = candidates
