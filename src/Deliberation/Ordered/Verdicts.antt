-- ===== src/Deliberation/Ordered/Verdicts.antt =====
-- Commitments and the verdicts on them: what they send to the log and do to the store.
use gemot.Prelude.{ℕ, ◌-◌, ◌≡◌, refl, ap, [], ◌∷◌, String, str_eq, arith, if◌then◌else◌}
use gemot.Prelude.Outcomes.{ok}
use gemot.Memory.Records.{Deliberation, Commitment}
use gemot.Memory.State.{MemoryStore}
use gemot.Memory.Deliberations.{get_deliberation}
use gemot.Memory.Commitments.{
  create_commitment, get_commitment_by_id, update_commitment_status, fulfill_commitment,
  break_commitment,
}
use gemot.Memory.Moderation.{decimal}
use gemot.Deliberation.Service.{
  pure, Outside, Service, and_then, audit, payload_text, deliberation_of, looks_up, not_found,
}
use gemot.Deliberation.Commitments.{
  commit, service_fulfill_commitment, service_break_commitment, check_participant, activate,
  new_commitment,
}
use gemot.Deliberation.Ordered.Effects.{
  Effect, sent, intended, committed, commits, fulfills, breaks, commitment_deliberation,
}
use gemot.Deliberation.Ordered.Steps.{
  Reads, Acts, Ordered, Ordered-as, Ordered-then, Reads-then, Reads-Ordered, refuse_if-Reads,
  looks_up-Reads, value-Reads, order_action-Ordered, writes-Acts, audit-Acts, stored-written,
  dropped, Reads-dropped, Ordered-dropped,
}

module _ {L : Type 0} (x : Outside L) where
  activated-Acts :
      (c : Commitment) (id agent : String) (t : Service L)
      → Acts
          (λ m. (
            ok (if str_eq c.conditional "" then record c { status = "active" } else c),
            if str_eq c.conditional "" then (update_commitment_status c.id "active" m).1 else m,
          ))
          t
          (and_then
            (activate c t)
            (λ c' t. and_then (audit "decide:commit" id agent t) (λ _. pure c')))
  unfolding and_then audit activate
  activated-Acts c id agent t = record {
    log = ground arith;
    outcome = ground arith;
    store = ground arith;
  }

  commit-sent :
      (fresh : String) (now : ℕ) (id agent statement conditional : String) (m : MemoryStore)
      (d : Deliberation)
      → get_deliberation id m ≡ ok d
      → id ∷ (agent ∷ (decimal d.round (d.round - 1) ∷ (statement ∷ (conditional ∷ []))))
        ≡ sent x (commits fresh now id agent statement conditional) m
  unfolding sent
  commit-sent fresh now id agent statement conditional m d e = rw (sent, e) refl

  commit-intended :
      (fresh : String) (now : ℕ) (id agent statement conditional : String) (m : MemoryStore)
      (d : Deliberation)
      → get_deliberation id m ≡ ok d
      → ◌≡◌ {A = Effect (Unit {0})}
          (
            ok tt,
            committed conditional (
                create_commitment fresh now
                  (new_commitment id agent (d.round - 1) statement conditional)
                  m),
          )
          (intended x (commits fresh now id agent statement conditional) m)
  unfolding intended
  commit-intended fresh now id agent statement conditional m d e = rw (intended, e) refl

  pub commit-Ordered :
      (fresh : String) (now : ℕ) (id agent statement conditional : String) (s : Service L)
      → Ordered x
          (payload_text "commit"
            (sent x (commits fresh now id agent statement conditional) s.store))
          (intended x (commits fresh now id agent statement conditional) s.store)
          s.store
          s.log
          (dropped (commit x fresh now id agent statement conditional s))
  unfolding commit deliberation_of looks_up create_commitment new_commitment
  commit-Ordered fresh now id agent statement conditional s =
      let m = s.store in
      let l = s.log in
      Reads-dropped x m l _ _ _ _
        (Reads-then x m l _ _ (refuse_if-Reads x m l s refl refl _ _)
          (λ _ _ t a b. looks_up-Reads x m l t a b (get_deliberation id) not_found))
        (λ d is_d t a b.
          Ordered-as x m l
            (ap (payload_text "commit")
              (commit-sent fresh now id agent statement conditional m d is_d))
            (commit-intended fresh now id agent statement conditional m d is_d)
            (Ordered-dropped x m l _ _ _ (
              Ordered-then x m l _ _ _ _ _
                (Ordered-then x m l _ _ _ _ _
                  (Reads-Ordered x m l _ _ _ _ (refuse_if-Reads x m l t a b _ _)
                    (λ _ _ t a b. order_action-Ordered x m l t a b _ _))
                  (λ _ t.
                    writes-Acts
                      (create_commitment fresh now
                        (new_commitment id agent (d.round - 1) statement conditional))
                      t))
                (λ c t. activated-Acts c id agent t))))

  check_participant-Reads :
      (m : MemoryStore) (l : L) (t : Service L) (id key : String)
      → t.store ≡ m
      → t.log ≡ l
      → Reads (λ _. Unit {0}) m l (check_participant id key t)
  unfolding check_participant
  check_participant-Reads m l t id key a b =
      Reads-then x m l _ _ (value-Reads x m l t a b _)
        (λ _ _ t a b. refuse_if-Reads x m l t a b _ _)

  commitment_deliberation_lem :
      (id : String) (m : MemoryStore) (c : Commitment)
      → get_commitment_by_id id m ≡ ok c
      → c.deliberation_id ≡ commitment_deliberation id m
  commitment_deliberation_lem id m c e = rw (commitment_deliberation, e) refl

  pub fulfill_commitment-Ordered :
      (now : ℕ) (id verified_by key : String) (s : Service L)
      → Ordered x
          (payload_text "fulfill" (sent x (fulfills now id verified_by key) s.store))
          (intended x (fulfills now id verified_by key) s.store)
          s.store
          s.log
          (service_fulfill_commitment x now id verified_by key s)
  unfolding service_fulfill_commitment looks_up sent intended
  fulfill_commitment-Ordered now id verified_by key s =
      let m = s.store in
      let l = s.log in
      Reads-Ordered x m l _ _ _ _
        (looks_up-Reads x m l s refl refl (get_commitment_by_id id) not_found)
        (λ c is_c t a b.
          Ordered-as x m l
            (ap (λ d. payload_text "fulfill" (d ∷ (verified_by ∷ (id ∷ []))))
              (commitment_deliberation_lem id m c is_c))
            (stored-written (fulfill_commitment id verified_by now m))
            (Ordered-then x m l _ _ _ _ _
              (Ordered-then x m l _ _ _ _ _
                (Reads-Ordered x m l _ _ _ _
                  (Reads-then x m l _ _ (check_participant-Reads m l t c.deliberation_id key a b)
                    (λ _ _ t a b. refuse_if-Reads x m l t a b _ _))
                  (λ _ _ t a b. order_action-Ordered x m l t a b _ _))
                (λ _ t. writes-Acts (fulfill_commitment id verified_by now) t))
              (λ _ t. audit-Acts _ _ _ t)))

  pub break_commitment-Ordered :
      (now : ℕ) (id reason verified_by key : String) (s : Service L)
      → Ordered x
          (payload_text "break" (sent x (breaks now id reason verified_by key) s.store))
          (intended x (breaks now id reason verified_by key) s.store)
          s.store
          s.log
          (service_break_commitment x now id reason verified_by key s)
  unfolding service_break_commitment looks_up sent intended
  break_commitment-Ordered now id reason verified_by key s =
      let m = s.store in
      let l = s.log in
      Reads-Ordered x m l _ _ _ _
        (looks_up-Reads x m l s refl refl (get_commitment_by_id id) not_found)
        (λ c is_c t a b.
          Ordered-as x m l
            (ap (λ d. payload_text "break" (d ∷ (verified_by ∷ (id ∷ (reason ∷ [])))))
              (commitment_deliberation_lem id m c is_c))
            (stored-written (break_commitment id reason verified_by now m))
            (Ordered-then x m l _ _ _ _ _
              (Ordered-then x m l _ _ _ _ _
                (Reads-Ordered x m l _ _ _ _
                  (check_participant-Reads m l t c.deliberation_id key a b)
                  (λ _ _ t a b. order_action-Ordered x m l t a b _ _))
                (λ _ t. writes-Acts (break_commitment id reason verified_by now) t))
              (λ _ t. audit-Acts _ _ _ t)))
