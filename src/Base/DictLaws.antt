-- ===== src/Base/DictLaws.antt =====
-- What a dictionary answers after a write.
use mathlib.Core.Path.{◌≡◌, refl, ◌∙◌, ap}
use mathlib.Core.Logic.{inl, inr}
use mathlib.Core.Bool.{false}
use mathlib.Core.List.{List, [], ◌∷◌}
use mathlib.Core.Option.{some}
use alpha_council.Base.Tests.{if◌then◌else◌, Bool-cases}
use alpha_council.Base.Dict.{Key, Entry, get, put}

module _ {K V : Type 0} ⦃k : Key K⦄ where
  pub get-put :
      (key : K) (value : V) (d : List (Entry K V)) → get key (put key value d) ≡ some value
  unfolding get put
  get-put key value [] = rw (k.same_refl key) refl
  get-put key value (x ∷ d) = elim (Bool-cases (k.same x.key key)) [
    | inl here ↦ rw (here, here) refl
    | inr there ↦ rw (there, there) (get-put key value d)
  ]

  pub get-put_other :
      (key other : K) (value : V) (d : List (Entry K V))
      → k.same key other ≡ false
      → get other (put key value d) ≡ get other d
  unfolding get put
  get-put_other key other value [] h = rw h refl
  get-put_other key other value (x ∷ d) h = elim (Bool-cases (k.same x.key key)) [
    | inl here ↦
        let apart = ap (λ y. k.same y other) (k.same_eq x.key key here) ∙ h in rw (here, apart) refl
    | inr there ↦ rw there (
        ap (λ r. if k.same x.key other then some x.value else r)
          (get-put_other key other value d h))
  ]
