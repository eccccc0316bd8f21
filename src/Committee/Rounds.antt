-- ===== src/Committee/Rounds.antt =====
-- The two rounds of the committee (backend/app/committee/service.py, disagreement.py).
use alpha_council.Base.{
  ◌≡◌, refl, ap, Bool, ◌&&◌, inl, inr, Option, none, some, List, [], ◌∷◌, map, All, find, arith,
  Bool-cases, Option-cases,
}
use mathlib.Core.Path.{subst}
use alpha_council.Base.Dict.{string_key, Entry, get, put}
use alpha_council.Committee.Models.{
  AgentRole, quant, bull, bear, regime, same_role, role_key, role_text, AgentOpinion,
  AgentChallenge, EvidencePacket, DisagreementReport,
}
use alpha_council.Committee.Agents.{Backend, rebut, failed_result}
use alpha_council.Committee.Grounding.{rebut-failed_result}
use alpha_council.Committee.Disagreement.{generate_challenges}
use alpha_council.Committee.Challenges.{AllOf, IsAimed, generate_challenges-IsAimed}
use alpha_council.Committee.Rebuttal.{
  Opinions, initial_map, answer_challenge, answer_all, run_rebuttal_round,
}
use alpha_council.Committee.Service.{agents_map, merged, merged_opinion, final_round}

module _ {D : Type 0} where
  abbrev pub IsInitial : AgentOpinion D → Type 0
  IsInitial o = o.round ≡ 1

  abbrev IsInitialEntry : Entry AgentRole (AgentOpinion D) → Type 0
  IsInitialEntry e = IsInitial e.value

  put-All :
      (role : AgentRole) (o : AgentOpinion D) (updated : Opinions D)
      → IsInitial o
      → All IsInitialEntry updated
      → All IsInitialEntry (put role o updated)
  unfolding put
  put-All role o [] h k = (h, tt)
  put-All role o (e ∷ updated) h k = ground (arith, put-All role o updated h)

  initial_map-All :
      (os : List (AgentOpinion D)) (updated : Opinions D)
      → All IsInitial os
      → All IsInitialEntry updated
      → All IsInitialEntry (initial_map os updated)
  initial_map-All [] updated h k = k
  initial_map-All (o ∷ os) updated (h, rest) k =
      initial_map-All os (put o.agent_role o updated) rest (put-All o.agent_role o updated h k)

  values-All :
      (updated : Opinions D)
      → All IsInitialEntry updated
      → All IsInitial (map (λ e. e.value) updated)
  values-All [] h = tt
  values-All (e ∷ updated) (h, rest) = (h, values-All updated rest)

  abbrev IsInitialOption : Option (AgentOpinion D) → Type 0
  IsInitialOption none = Unit
  IsInitialOption (some o) = IsInitial o

  find-initial :
      (p : AgentOpinion D → Bool) (os : List (AgentOpinion D))
      → All IsInitial os
      → IsInitialOption (find p os)
  find-initial p [] h = tt
  find-initial p (o ∷ os) (h, rest) = ground (arith, find-initial p os rest)

  merged_opinion-initial :
      (rebuttals : List (AgentOpinion D)) (o : AgentOpinion D)
      → All IsInitial rebuttals
      → merged_opinion rebuttals o ≡ o
  merged_opinion-initial rebuttals o h =
      ground (arith, find-initial (λ r. same_role r.agent_role o.agent_role) rebuttals h)

  -- Opinions of the first round are not taken for rebuttals.
  merged-initial :
      (rebuttals os : List (AgentOpinion D)) → All IsInitial rebuttals → merged rebuttals os ≡ os
  unfolding merged
  merged-initial rebuttals [] h = refl
  merged-initial rebuttals (o ∷ os) h =
      rw (merged_opinion-initial rebuttals o h) (ap (λ r. o ∷ r) (merged-initial rebuttals os h))

module _ {V D : Type 0} (b : Backend V D) where
  get-agents_map : (role : AgentRole) → get (role_text role) (agents_map b) ≡ some (rebut b role)
  unfolding get
  get-agents_map quant = refl
  get-agents_map bull = refl
  get-agents_map bear = refl
  get-agents_map regime = refl

  answer_challenge-fails :
      (evidence : EvidencePacket) (c : AgentChallenge) (updated : Opinions D)
      → answer_challenge (agents_map b) evidence c updated ≡ updated
  unfolding answer_challenge failed_result
  answer_challenge-fails evidence c updated = elim (Option-cases (get c.target_agent updated)) [
    | inl e ↦ rw (get-agents_map c.target_agent, e) refl
    | inr (prior, e) ↦
        rw (get-agents_map c.target_agent, e, rebut-failed_result b c.target_agent evidence c prior)
          refl
  ]

  answer_all-fails :
      (evidence : EvidencePacket) (cs : List AgentChallenge) (updated : Opinions D)
      → answer_all (agents_map b) evidence cs updated ≡ updated
  answer_all-fails evidence [] updated = refl
  answer_all-fails evidence (c ∷ cs) updated =
      rw (answer_challenge-fails evidence c updated) (answer_all-fails evidence cs updated)

  -- After opinions of the first round, the second round raises no exception and changes none.
  pub final_round-initial :
      (enable_rebuttal : Bool) (evidence : EvidencePacket) (os : List (AgentOpinion D))
      (report : DisagreementReport)
      → All IsInitial os
      → final_round b enable_rebuttal evidence os report ≡ some os
  unfolding final_round run_rebuttal_round
  final_round-initial enable_rebuttal evidence os report h =
      elim (Bool-cases (enable_rebuttal && report.challenge_required)) [
        | inr quiet ↦ rw quiet refl
        | inl loud ↦ elim (Option-cases (generate_challenges os report)) [
          | inl e ↦
              ground (
                arith,
                subst (λ cs. AllOf (IsAimed os) cs) e (generate_challenges-IsAimed os report),
              )
          | inr (cs, e) ↦
              rw (loud, e, answer_all-fails evidence cs (initial_map os []))
                (ap some (
                  merged-initial (map (λ x. x.value) (initial_map os [])) os
                    (values-All (initial_map os []) (initial_map-All os [] h tt))))
        ]
      ]
