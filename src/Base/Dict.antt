-- ===== src/Base/Dict.antt =====
-- Python's dictionaries, as the lists of their entries in the order of insertion.
use mathlib.Core.Path.{◌≡◌, refl}
use mathlib.Core.Bool.{Bool, true}
use mathlib.Core.List.{List, [], ◌∷◌}
use mathlib.Core.Option.{Option, none, some}
use Prim.Native.String.{String}
use text.Mathlib.Text.{◌==◌ as str_eq}
use text.Mathlib.TextEquality.{eq_iff}
use alpha_council.Base.Tests.{if◌then◌else◌}

-- Keys that can be compared.
pub record Key (K : Type 0) : Type 0 where
  pub same : K → K → Bool
  pub same_refl : (k : K) → same k k ≡ true
  pub same_eq : (a b : K) → same a b ≡ true → a ≡ b

instance abbrev pub string_key : Key String
string_key = record {
  same = str_eq;
  same_refl = λ s. (eq_iff s s).1 refl;
  same_eq = λ a b. (eq_iff a b).0;
}

pub record Entry (K V : Type 0) : Type 0 where
  pub key : K
  pub value : V

module _ {K V : Type 0} ⦃k : Key K⦄ where
  -- `d.get(key)`
  unfoldable pub get : K → List (Entry K V) → Option V
  get key [] = none
  get key (x ∷ d) = let rest = get key d in if k.same x.key key then some x.value else rest

  -- `d[key] = value`, which keeps the place of a key that is there
  unfoldable pub put : K → V → List (Entry K V) → List (Entry K V)
  put key value [] = record { key = key; value = value } ∷ []
  put key value (x ∷ d) =
      let rest = put key value d in
      if k.same x.key key then record { key = x.key; value = value } ∷ d else x ∷ rest
