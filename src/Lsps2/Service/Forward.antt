-- ===== src/Lsps2/Service/Forward.antt =====
-- The calls that src/lsps2/service.rs makes to the channel manager.
use mathlib.Core.List.{append_assoc, append-nil}
use lightning_liquidity.Base.{
  ℕ, ◌≡◌, ◌⊎◌, refl, sym, ap, subst, ◌∙◌, none, some, List, [], ◌∷◌, ◌++◌, map, Option-cases, inl,
  inr,
}
use lightning_liquidity.Base.Keys.{nat_eq}
use lightning_liquidity.Types.{PublicKey, ChannelId, InterceptId}
use lightning_liquidity.World.{
  World, Outcome, done, failed, Call, forward, Answers, call, forward_all, ApiError,
  from_channel_manager,
}

-- The calls that forward the HTLCs, in order.
abbrev pub forwards : ChannelId → PublicKey → List (InterceptId × ℕ) → List Call
forwards channel_id node = map λ a. forward a.0 channel_id node a.1

-- The channel manager accepts each of the calls, made one after the other.
abbrev pub Accepted : Answers → List Call → List Call → Type 0
Accepted answers before [] = Unit
Accepted answers before (c ∷ cs) =
    (answers before c ≡ none) × Accepted answers (before ++ c ∷ []) cs

-- The first call that the channel manager answers with an error: the calls before it are accepted,
-- the calls after it are not made, and its error is returned.
pub record Stopped (answers : Answers) (before made wanted : List Call) (outcome : Outcome ApiError)
    : Type 0 where
  pub accepted : List Call
  pub stopping : Call
  pub rest : List Call
  pub code : ℕ
  pub in_order : wanted ≡ accepted ++ stopping ∷ rest
  pub calls : made ≡ before ++ (accepted ++ stopping ∷ [])
  pub all_accepted : Accepted answers before accepted
  pub answer : answers (before ++ accepted) stopping ≡ some code
  pub returned : outcome ≡ failed (from_channel_manager code)

-- Either all of the calls that are wanted are made and accepted, or the first error stops them.
abbrev pub Forwards : Answers → List Call → List Call → List Call → Outcome ApiError → Type 0
Forwards answers before made wanted outcome =
    ((made ≡ before ++ wanted) × Accepted answers before wanted × (outcome ≡ done))
    ⊎ Stopped answers before made wanted outcome

after_first :
    (answers : Answers) (before made wanted : List Call) (c : Call) (outcome : Outcome ApiError)
    → answers before c ≡ none
    → Forwards answers (before ++ c ∷ []) made wanted outcome
    → Forwards answers before made (c ∷ wanted) outcome
after_first answers before made wanted c outcome e (inl (calls, accepted, finished)) =
    inl (calls ∙ append_assoc before (c ∷ []) wanted, (e, accepted), finished)
after_first answers before made wanted c outcome e (inr f) = inr (record {
  accepted = c ∷ f.accepted;
  stopping = f.stopping;
  rest = f.rest;
  code = f.code;
  in_order = ap (◌∷◌ c) f.in_order;
  calls = f.calls ∙ append_assoc before (c ∷ []) (f.accepted ++ f.stopping ∷ []);
  all_accepted = (e, f.all_accepted);
  answer =
      subst (λ (cs : List Call). answers cs f.stopping ≡ some f.code)
        (append_assoc before (c ∷ []) f.accepted) f.answer;
  returned = f.returned;
})

module _ {S : Type 0} where
  calls-call :
      (answers : Answers) (c : Call) (w : World S) → (call answers c w).0.calls ≡ w.calls ++ c ∷ []
  unfolding call
  calls-call answers c w = refl

  forward_none :
      (answers : Answers) (channel_id : ChannelId) (node : PublicKey) (w : World S)
      → forward_all answers channel_id node [] w ≡ (w, done)
  unfolding forward_all
  forward_none answers channel_id node w = refl

  module _ (answers : Answers) (channel_id : ChannelId) (node : PublicKey) (id : InterceptId)
      (amount : ℕ) (rest : List (InterceptId × ℕ)) (w : World S) where
    forward_accepted :
        answers w.calls (forward id channel_id node amount) ≡ none
        → forward_all answers channel_id node ((id, amount) ∷ rest) w
          ≡ forward_all answers channel_id node rest
              (call answers (forward id channel_id node amount) w).0
    unfolding forward_all call
    forward_accepted e = rw (e, forward_all) refl

    forward_stopped :
        (code : ℕ)
        → answers w.calls (forward id channel_id node amount) ≡ some code
        → forward_all answers channel_id node ((id, amount) ∷ rest) w ≡ (
          (call answers (forward id channel_id node amount) w).0,
          failed (from_channel_manager code),
        )
    unfolding forward_all call
    forward_stopped code e = rw (e, forward_all) refl

  -- The HTLCs of a payment are forwarded in order by one call each, up to the first call that the
  -- channel manager answers with an error: the calls after it are not made and its error is
  -- returned. Without such an answer all the calls are made and the outcome is `Ok(())`.
  pub forward_all-Forwards :
      (answers : Answers) (channel_id : ChannelId) (node : PublicKey)
      (amounts : List (InterceptId × ℕ)) (w : World S)
      → let r = forward_all answers channel_id node amounts w in
        Forwards answers w.calls r.0.calls (forwards channel_id node amounts) r.1
  forward_all-Forwards answers channel_id node [] w =
      rw (forward_none answers channel_id node w) (inl (sym (append-nil w.calls), tt, refl))
  forward_all-Forwards answers channel_id node ((id, amount) ∷ rest) w =
      let c = forward id channel_id node amount in
      elim (Option-cases (answers w.calls c)) [
        | inl e ↦ rw (forward_accepted answers channel_id node id amount rest w e) (
            after_first answers w.calls _ (forwards channel_id node rest) c _ e (
              rw (calls-call answers c w) at
                (forward_all-Forwards answers channel_id node rest (call answers c w).0)))
        | inr (code, e) ↦ rw (forward_stopped answers channel_id node id amount rest w code e) (
            inr (record {
              accepted = [];
              stopping = c;
              rest = forwards channel_id node rest;
              code = code;
              in_order = refl;
              calls = calls-call answers c w;
              all_accepted = tt;
              answer = rw (append-nil w.calls) e;
              returned = refl;
            }))
      ]
