-- ===== src/Deliberation/Ordered/Submissions.antt =====
-- Positions: what they send to the log and do to the store.
use gemot.Prelude.{ℕ, suc, ◌≡◌, refl, ap, List, [], ◌∷◌, String, arith}
use gemot.Prelude.Outcomes.{ok}
use gemot.Memory.Records.{Deliberation, Position}
use gemot.Memory.State.{MemoryStore}
use gemot.Memory.Deliberations.{get_deliberation}
use gemot.Memory.Positions.{create_position}
use gemot.Memory.Moderation.{decimal}
use gemot.Deliberation.Service.{
  pure, Outside, Service, and_then, audit, emit, payload_text, deliberation_of, looks_up, not_found,
}
use gemot.Deliberation.Signing.{
  verify_position_signature, verify_principal_delegation, unsigned, signed, unbacked,
  verify_credential,
}
use gemot.Deliberation.Positions.{submit_position, submit_checked, built_position, PositionOption}
use gemot.Deliberation.Ordered.Effects.{sent, intended, submits, verified_position, stored}
use gemot.Deliberation.Ordered.Steps.{
  Reads, Acts, Ordered, Ordered-as, Ordered-then, Reads-then, refuse_if-Reads, looks_up-Reads,
  value-Reads, order_action-Ordered, writes-Acts, dropped, Reads-dropped, Ordered-dropped,
}

module _ {L : Type 0} (x : Outside L) where
  module _ (m : MemoryStore) (l : L) (t : Service L) (store : t.store ≡ m) (log : t.log ≡ l) where
    verify_position_signature-Reads :
        (d : Deliberation) (p : Position) (content signer : String)
        → Reads (λ _. Unit {0}) m l (verify_position_signature x d p content signer t)
    unfolding and_then verify_position_signature unsigned signed audit
    verify_position_signature-Reads d p content signer = record {
      store = ground arith;
      log = ground arith;
      value = λ a q. tt;
    }

    verify_principal_delegation-Reads :
        (d : Deliberation) (p : Position) (content signer : String)
        → Reads
            (λ p'. p' ≡ verified_position x p)
            m
            l
            (verify_principal_delegation x d p content signer t)
    unfolding and_then verify_principal_delegation unbacked verify_credential audit
        verified_position
    verify_principal_delegation-Reads d p content signer = record {
      store = ground arith;
      log = ground arith;
      value = λ p' q. ground arith;
    }

  submit-sent :
      (fresh : String) (now : ℕ) (id agent signer raw : String) (opts : List PositionOption)
      (m : MemoryStore) (d : Deliberation)
      → get_deliberation id m ≡ ok d
      → (let p = built_position x d id agent (x.sanitize raw) opts in
          id ∷ (agent ∷ (decimal (suc p.round) p.round ∷ (x.sanitize raw ∷ []))))
        ≡ sent x (submits fresh now id agent signer raw opts) m
  unfolding sent
  submit-sent fresh now id agent signer raw opts m d e = rw (sent, e) refl

  submit-intended :
      (fresh : String) (now : ℕ) (id agent signer raw : String) (opts : List PositionOption)
      (m : MemoryStore) (d : Deliberation)
      → get_deliberation id m ≡ ok d
      → stored (
          create_position fresh now
            (verified_position x (built_position x d id agent (x.sanitize raw) opts))
            m)
        ≡ intended x (submits fresh now id agent signer raw opts) m
  unfolding intended
  submit-intended fresh now id agent signer raw opts m d e = rw (intended, e) refl

  submitted-Acts :
      (p : Position) (id agent : String) (t : Service L)
      → Acts
          (λ m. (ok p, m))
          t
          (and_then
            (and_then
              (audit "participate:submit_position" id agent t)
              (λ _. emit "position_submitted" id agent p.id))
            (λ _. pure p))
  unfolding and_then audit emit
  submitted-Acts p id agent t = record { log = refl; outcome = refl; store = refl }

  submit_checked-Ordered :
      (fresh : String) (now : ℕ) (id agent : String) (d : Deliberation) (p : Position)
      (content raw signer : String) (m : MemoryStore) (l : L) (t : Service L)
      → t.store ≡ m
      → t.log ≡ l
      → Ordered x
          (payload_text "submit_position"
            (id ∷ (agent ∷ (decimal (suc p.round) p.round ∷ (content ∷ [])))))
          (stored (create_position fresh now (verified_position x p) m))
          m
          l
          (dropped (submit_checked x fresh now id agent d p content raw signer t))
  unfolding submit_checked create_position
  submit_checked-Ordered fresh now id agent d p content raw signer m l t a b =
      Reads-dropped x m l _ _ _ _
        (Reads-then x m l _ _ (verify_position_signature-Reads m l t a b d p raw signer)
          (λ _ _ t a b. verify_principal_delegation-Reads m l t a b d p raw signer))
        (λ p' is_p t a b.
          Ordered-as x m l refl (ap (λ p. stored (create_position fresh now p m)) is_p) (
            Ordered-dropped x m l _ _ _ (
              Ordered-then x m l _ _ _ _ _
                (Ordered-then x m l _ _ _ _ _ (order_action-Ordered x m l t a b _ _)
                  (λ _ t. writes-Acts (create_position fresh now p') t))
                (λ p t. submitted-Acts p id agent t))))

  pub submit_position-Ordered :
      (fresh : String) (now : ℕ) (id agent signer raw : String) (opts : List PositionOption)
      (s : Service L)
      → Ordered x
          (payload_text "submit_position"
            (sent x (submits fresh now id agent signer raw opts) s.store))
          (intended x (submits fresh now id agent signer raw opts) s.store)
          s.store
          s.log
          (dropped (submit_position x fresh now id agent signer raw opts s))
  unfolding submit_position deliberation_of looks_up
  submit_position-Ordered fresh now id agent signer raw opts s =
      let m = s.store in
      let l = s.log in
      Reads-dropped x m l _ _ _ _
        (Reads-then x m l _ _
          (Reads-then x m l _ _
            (Reads-then x m l _ _ (refuse_if-Reads x m l s refl refl _ _)
              (λ _ _ t a b. refuse_if-Reads x m l t a b _ _))
            (λ _ _ t a b. refuse_if-Reads x m l t a b _ _))
          (λ _ _ t a b. looks_up-Reads x m l t a b (get_deliberation id) not_found))
        (λ d is_d t a b.
          Reads-dropped x m l _ _ _ _
            (Reads-then x m l _ _
              (Reads-then x m l _ _ (refuse_if-Reads x m l t a b _ _)
                (λ _ _ t a b. refuse_if-Reads x m l t a b _ _))
              (λ _ _ t a b. value-Reads x m l t a b _))
            (λ unread _ t a b.
              Reads-dropped x m l _ _ _ _
                (Reads-then x m l _ _ (refuse_if-Reads x m l t a b _ _)
                  (λ _ _ t a b. value-Reads x m l t a b _))
                (λ count _ t a b.
                  Reads-dropped x m l _ _ _ _
                    (Reads-then x m l _ _ (refuse_if-Reads x m l t a b _ _)
                      (λ _ _ t a b. value-Reads x m l t a b _))
                    (λ full _ t a b.
                      Reads-dropped x m l _ _ _ _
                        (Reads-then x m l _ _ (refuse_if-Reads x m l t a b _ _)
                          (λ _ _ t a b. refuse_if-Reads x m l t a b _ _))
                        (λ _ _ t a b.
                          Ordered-as x m l
                            (ap (payload_text "submit_position")
                              (submit-sent fresh now id agent signer raw opts m d is_d))
                            (submit-intended fresh now id agent signer raw opts m d is_d)
                            (submit_checked-Ordered fresh now id agent d
                              (built_position x d id agent (x.sanitize raw) opts) (x.sanitize raw)
                              raw signer m l t a b))))))
