-- ===== src/Discovery/Caps.antt =====
-- What the caps on a category keep (backend/app/discovery/diversification.py).
use alpha_council.Base.{
  ℕ, zero, suc, ◌-◌, ◌≡◌, refl, ap, sym, ◌∙◌, String, true, false, List, [], ◌∷◌, select, str_eq,
  arith, take, ltb as ltb_ℕ, inl, inr, Bool-cases,
}
use alpha_council.Base.Dict.{string_key, Entry, get, put}
use alpha_council.Base.DictLaws.{get-put, get-put_other}
use alpha_council.Discovery.Diversification.{
  category, count_in, count_of, diversify, apply_diversification,
}

module _ {ℓ} {A : Type ℓ} where
  take_nil : (n : ℕ) → take {A = A} n [] ≡ []
  take_nil zero = refl
  take_nil (suc n) = refl

  take_open :
      (n cap : ℕ) (x : A) (xs : List A)
      → ltb_ℕ n cap ≡ true
      → take (cap - n) (x ∷ xs) ≡ x ∷ take (cap - suc n) xs
  take_open n cap x xs h =
      let step : cap - n ≡ suc (cap - suc n) = ground (arith, h) in ap (λ m. take m (x ∷ xs)) step

  take_shut : (n cap : ℕ) (xs : List A) → ltb_ℕ n cap ≡ false → take (cap - n) xs ≡ []
  take_shut n cap xs h = let spent : cap - n ≡ 0 = ground (arith, h) in ap (λ m. take m xs) spent

-- The count of a key after the loop has counted one more of it.
count_of-put :
    (name key : String) (counts : List (Entry String ℕ))
    → name ≡ key
    → count_of key (put name (suc (count_of name counts)) counts) ≡ suc (count_of key counts)
count_of-put name key counts same =
    ap (λ y. count_of key (put y (suc (count_of y counts)) counts)) same
    ∙ ap count_in (get-put key (suc (count_of key counts)) counts)

module _ {C : Type 0} (category_of : C → String) (key : String) where
  -- The candidates of the category, in their order.
  abbrev pub members : List C → List C
  members cs = select (λ c. str_eq (category_of c) key) cs

  members-diversify :
      (cap : ℕ) (counts : List (Entry String ℕ)) (cs : List C)
      → members (diversify category_of cap counts cs)
        ≡ take (cap - count_of key counts) (members cs)
  unfolding diversify select
  members-diversify cap counts [] = sym (take_nil (cap - count_of key counts))
  members-diversify cap counts (c ∷ cs) =
      let n = count_of (category_of c) counts in
      let counted = put (category_of c) (suc n) counts in
      elim (Bool-cases (str_eq (category_of c) key)) [
        | inl mine ↦
            let same = string_key.same_eq (category_of c) key mine in
            elim (Bool-cases (ltb_ℕ n cap)) [
              | inl room ↦
                  rw (room, mine)
                    (ap (λ r. c ∷ r) (members-diversify cap counted cs)
                      ∙ ap (λ m. c ∷ take (cap - m) (members cs))
                          (count_of-put (category_of c) key counts same)
                      ∙ sym (
                          take_open (count_of key counts) cap c (members cs)
                            (ap (λ y. ltb_ℕ (count_of y counts) cap) (sym same) ∙ room)))
              | inr full ↦
                  let shut : ltb_ℕ (count_of key counts) cap ≡ false =
                    ap (λ y. ltb_ℕ (count_of y counts) cap) (sym same) ∙ full in
                  rw (full, mine)
                    (members-diversify cap counts cs
                      ∙ take_shut (count_of key counts) cap (members cs) shut
                      ∙ sym (take_shut (count_of key counts) cap (c ∷ members cs) shut))
            ]
        | inr other ↦ elim (Bool-cases (ltb_ℕ n cap)) [
          | inl room ↦
              rw (room, other)
                (members-diversify cap counted cs
                  ∙ ap (λ o. take (cap - count_in o) (members cs))
                      (get-put_other (category_of c) key (suc n) counts other))
          | inr full ↦ rw (full, other) (members-diversify cap counts cs)
        ]
      ]

  -- Of the candidates of any category, apply_diversification by category keeps the first
  -- max_per_group in their order, or all of them where there are fewer.
  pub members-apply_diversification :
      (candidates : List C) (max_per_group : ℕ)
      → members (apply_diversification category_of candidates max_per_group category)
        ≡ take max_per_group (members candidates)
  unfolding apply_diversification get
  members-apply_diversification candidates max_per_group =
      members-diversify max_per_group [] candidates
      ∙ ap (λ n. take n (members candidates)) (omega arith)
