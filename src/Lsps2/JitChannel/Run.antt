-- ===== src/Lsps2/JitChannel/Run.antt =====
-- What becomes of the HTLCs of a just-in-time channel of src/lsps2/service.rs over any calls.
use mathlib.Core.List.{Perm, append_assoc}
use mathlib.Core.List.Perm
use lightning_liquidity.Base.{List, [], ◌∷◌, ◌++◌, append_left_comm-perm}
use lightning_liquidity.Base.Results.{Result, ok, err}
use lightning_liquidity.Types.{ChannelId}
use lightning_liquidity.Lsps2.PaymentQueue.{InterceptedHtlc}
use lightning_liquidity.Lsps2.JitChannel.{ChannelStateError, ForwardPaymentAction, Transition}
use lightning_liquidity.Lsps2.JitChannel.Channel.{
  OutboundJitChannel, settle, htlc_intercepted, channel_ready, htlc_handling_failed,
  on_payment_forwarded,
}
use lightning_liquidity.Lsps2.JitChannel.Conserve.{
  held_htlcs, released, paid, freed, Conserves, htlc_intercepted-Conserves, channel_ready-Conserves,
  htlc_handling_failed-Conserves, on_payment_forwarded-Conserves,
}

-- A call on a channel, whether it succeeds or fails.
pub data ChannelCall : Type 0 where
  intercept : InterceptedHtlc → ChannelCall
  become_ready : ChannelId → ChannelCall
  fail_handling : ChannelCall
  complete_forward : ChannelCall

-- The HTLCs that a call brings.
abbrev pub brought : ChannelCall → List InterceptedHtlc
brought (intercept htlc) = htlc ∷ []
brought (become_ready id) = []
brought fail_handling = []
brought complete_forward = []

abbrev pub handed :
    {A : Type 0} → (A → List InterceptedHtlc) → Result ChannelStateError A → List InterceptedHtlc
handed out (ok a) = out a
handed out (err e) = []

-- The channel after a call, and the HTLCs that its action hands to the channel manager.
abbrev pub perform : ChannelCall → OutboundJitChannel → OutboundJitChannel × List InterceptedHtlc
perform (intercept htlc) c = let r = htlc_intercepted c htlc in (r.0, handed (released htlc) r.1)
perform (become_ready id) c =
    let r = channel_ready c id in (r.0, handed (λ (a : ForwardPaymentAction). a.payment.htlcs) r.1)
perform fail_handling c = let r = htlc_handling_failed c in (r.0, handed paid r.1)
perform complete_forward c = let r = on_payment_forwarded c in (r.0, handed freed r.1)

abbrev pub run : List ChannelCall → OutboundJitChannel → OutboundJitChannel × List InterceptedHtlc
run [] c = (c, [])
run (call ∷ rest) c = let r = perform call c in let s = run rest r.0 in (s.0, r.1 ++ s.1)

abbrev pub all_brought : List ChannelCall → List InterceptedHtlc
all_brought [] = []
all_brought (call ∷ rest) = brought call ++ all_brought rest

settle-perm :
    {A : Type 0} (c : OutboundJitChannel) (out : A → List InterceptedHtlc)
    (before : List InterceptedHtlc) (t : Transition A)
    → Conserves out before t
    → Perm before (handed out (settle c t).1 ++ held_htlcs (settle c t).0.state)
settle-perm c out before (self, ok (s, a)) h = h
settle-perm c out before (self, err e) h = h

pub perform-perm :
    (call : ChannelCall) (c : OutboundJitChannel)
    → Perm
        (brought call ++ held_htlcs c.state)
        ((perform call c).1 ++ held_htlcs (perform call c).0.state)
unfolding htlc_intercepted channel_ready htlc_handling_failed on_payment_forwarded
perform-perm (intercept htlc) c =
    settle-perm c (released htlc) _ _
      (htlc_intercepted-Conserves c.opening_fee_params c.payment_size_msat c.state htlc)
perform-perm (become_ready id) c =
    settle-perm c (λ (a : ForwardPaymentAction). a.payment.htlcs) _ _
      (channel_ready-Conserves c.state id)
perform-perm fail_handling c = settle-perm c paid _ _ (htlc_handling_failed-Conserves c.state)
perform-perm complete_forward c = settle-perm c freed _ _ (on_payment_forwarded-Conserves c.state)

-- The HTLCs that a channel held, with those that the calls brought, are exactly those that it holds
-- after the calls with those that it has handed over: over any sequence of calls, succeeding or
-- failing, no HTLC is lost and none is handed over twice.
pub run-perm :
    (calls : List ChannelCall) (c : OutboundJitChannel)
    → Perm
        (all_brought calls ++ held_htlcs c.state)
        ((run calls c).1 ++ held_htlcs (run calls c).0.state)
run-perm [] c = Perm.refl (held_htlcs c.state)
run-perm (call ∷ rest) c =
    let r = perform call c in
    let s = run rest r.0 in
    rw
      (
        append_assoc (brought call) (all_brought rest) (held_htlcs c.state),
        append_assoc r.1 s.1 (held_htlcs s.0.state),
      )
      (Perm.trans (append_left_comm-perm (brought call) (all_brought rest) (held_htlcs c.state)) (
        Perm.trans (Perm.append (Perm.refl (all_brought rest)) (perform-perm call c)) (
          Perm.trans (append_left_comm-perm (all_brought rest) r.1 (held_htlcs r.0.state))
            (Perm.append (Perm.refl r.1) (run-perm rest r.0)))))
