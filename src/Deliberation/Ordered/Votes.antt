-- ===== src/Deliberation/Ordered/Votes.antt =====
-- Votes and disputes: what they send to the log and do to the store.
use gemot.Prelude.{ℕ, ◌≡◌, refl, sym, String, arith, if◌then◌else◌}
use gemot.Prelude.Outcomes.{ok}
use gemot.Memory.Records.{Deliberation, Position, Vote}
use gemot.Memory.State.{MemoryStore}
use gemot.Memory.Deliberations.{get_deliberation}
use gemot.Memory.Positions.{get_position_by_id, publish_position}
use gemot.Memory.Votes.{create_vote}
use gemot.Memory.Moderation.{create_dispute}
use gemot.Deliberation.Service.{
  Outside, Service, and_then, audit, emit, payload_text, deliberation_of, looks_up, not_found,
}
use gemot.Deliberation.Signing.{verify_vote_signature, unsigned, signed}
use gemot.Deliberation.Voting.{cast_vote, publish_seconded, is_unsigned}
use gemot.Deliberation.Commitments.{dispute_crux, new_dispute}
use gemot.Deliberation.Ordered.Effects.{sent, intended, votes, disputes, seconds, seconded, tried}
use gemot.Deliberation.Ordered.Steps.{
  Reads, Acts, Ordered, Ordered-as, Ordered-then, Reads-then, Reads-Ordered, refuse_if-Reads,
  looks_up-Reads, value-Reads, order_action-Ordered, writes-Acts, stored-written, dropped,
  Reads-dropped, Ordered-dropped,
}

module _ {L : Type 0} (x : Outside L) where
  module _ (m : MemoryStore) (l : L) (t : Service L) (store : t.store ≡ m) (log : t.log ≡ l) where
    verify_vote_signature-Reads :
        (d : Deliberation) (v : Vote) (signer : String)
        → Reads (λ _. Unit {0}) m l (verify_vote_signature x d v signer t)
    unfolding and_then verify_vote_signature unsigned signed audit
    verify_vote_signature-Reads d v signer = record {
      store = ground arith;
      log = ground arith;
      value = λ a q. tt;
    }

  publish_seconded-Acts :
      (d : Deliberation) (p : Position) (v : Vote) (t : Service L)
      → Acts
          (λ m. if seconds x d p v then tried (publish_position v.position_id m) else (ok tt, m))
          t
          (publish_seconded x d p v t)
  unfolding publish_seconded seconds emit
  publish_seconded-Acts d p v t = record {
    log = ground arith;
    outcome = ground arith;
    store = ground arith;
  }

  voted-Acts :
      (d : Deliberation) (p : Position) (v : Vote) (id agent detail : String) (t : Service L)
      → Acts
          (λ m. if seconds x d p v then tried (publish_position v.position_id m) else (ok tt, m))
          t
          (and_then
            (and_then (audit "participate:vote" id agent t) (λ _. emit "vote_cast" id agent detail))
            (λ _. publish_seconded x d p v))
  unfolding and_then audit emit
  voted-Acts d p v id agent detail t =
      let r = publish_seconded-Acts d p v _ in
      record { log = r.log; outcome = r.outcome; store = r.store }

  seconded_lem :
      (v : Vote) (d : Deliberation) (p : Position) (before m : MemoryStore)
      → get_deliberation v.deliberation_id before ≡ ok d
      → get_position_by_id v.position_id before ≡ ok p
      → seconded x v before m
        ≡ (if seconds x d p v then tried (publish_position v.position_id m) else (ok tt, m))
  unfolding seconded
  seconded_lem v d p before m is_d is_p = rw (seconded, is_d, is_p) refl

  pub cast_vote-Ordered :
      (fresh : String) (now : ℕ) (v : Vote) (signer : String) (s : Service L)
      → Ordered x
          (payload_text "vote" (sent x (votes fresh now v signer) s.store))
          (intended x (votes fresh now v signer) s.store)
          s.store
          s.log
          (cast_vote x fresh now v signer s)
  unfolding cast_vote deliberation_of looks_up sent intended create_vote
  cast_vote-Ordered fresh now v signer s =
      let m = s.store in
      let l = s.log in
      Reads-Ordered x m l _ _ _ _
        (Reads-then x m l _ _ (refuse_if-Reads x m l s refl refl _ _)
          (λ _ _ t a b. looks_up-Reads x m l t a b (get_deliberation v.deliberation_id) not_found))
        (λ d is_d t a b.
          Reads-Ordered x m l _ _ _ _
            (Reads-then x m l _ _
              (Reads-then x m l _ _ (refuse_if-Reads x m l t a b _ _)
                (λ _ _ t a b. refuse_if-Reads x m l t a b _ _))
              (λ _ _ t a b.
                looks_up-Reads x m l t a b (get_position_by_id v.position_id) not_found))
            (λ p is_p t a b. Ordered-as x m l refl (sym (seconded_lem v d p m _ is_d is_p)) (
              Ordered-then x m l _ _ _ _ _
                (Ordered-then x m l _ _ _ _ _
                  (Reads-Ordered x m l _ _ _ _
                    (Reads-then x m l _ _
                      (Reads-then x m l _ _ (refuse_if-Reads x m l t a b _ _)
                        (λ _ _ t a b. refuse_if-Reads x m l t a b _ _))
                      (λ _ _ t a b. verify_vote_signature-Reads m l t a b d v signer))
                    (λ _ _ t a b. order_action-Ordered x m l t a b _ _))
                  (λ _ t.
                    writes-Acts (create_vote fresh now (record v { relayed = is_unsigned v })) t))
                (λ _ t. voted-Acts d p v v.deliberation_id v.agent_id v.position_id t))))

  pub dispute_crux-Ordered :
      (fresh : String) (now : ℕ) (id agent claim correction : String) (s : Service L)
      → Ordered x
          (payload_text "dispute_crux"
            (sent x (disputes fresh now id agent claim correction) s.store))
          (intended x (disputes fresh now id agent claim correction) s.store)
          s.store
          s.log
          (dropped (dispute_crux x fresh now id agent claim correction s))
  unfolding dispute_crux sent intended
  dispute_crux-Ordered fresh now id agent claim correction s =
      let m = s.store in
      let l = s.log in
      Reads-dropped x m l _ _ _ _ (value-Reads x m l s refl refl _) (λ closed _ t a b.
        Ordered-as x m l refl
          (stored-written (create_dispute fresh now (new_dispute id agent claim correction) m))
          (Ordered-dropped x m l _ _ _ (
            Ordered-then x m l _ _ _ _ _
              (Reads-Ordered x m l _ _ _ _
                (Reads-then x m l _ _
                  (Reads-then x m l _ _ (refuse_if-Reads x m l t a b _ _)
                    (λ _ _ t a b. refuse_if-Reads x m l t a b _ _))
                  (λ _ _ t a b. refuse_if-Reads x m l t a b _ _))
                (λ _ _ t a b. order_action-Ordered x m l t a b _ _))
              (λ _ t.
                writes-Acts (create_dispute fresh now (new_dispute id agent claim correction)) t))))
