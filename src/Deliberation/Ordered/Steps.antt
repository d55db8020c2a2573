-- ===== src/Deliberation/Ordered/Steps.antt =====
-- How an ordered operation is put together: checks that leave the store and the log alone, the entry
-- in the log, and what follows it.
use gemot.Prelude.{
  ℕ, ◌≡◌, refl, subst, ◌∙◌, inl, inr, Bool, true, false, List, String, arith, Bool-cases,
}
use gemot.Prelude.Outcomes.{Outcome, ok, err, panic}
use gemot.Memory.State.{MemoryStore, Method}
use gemot.Memory.State as State
use gemot.Deliberation.Service.{
  Outside, Service, M, Error, pure, and_then, order_action, payload_text, refuse_if, found, wrote,
  audit, not_ordered, store_failed,
}
use gemot.Deliberation.Signing.{is_ok}
use gemot.Deliberation.Ordered.Effects.{Effect, stored}

-- The store and the log are the given ones, and the property holds of the value, if there is one.
pub record Reads {L A : Type 0} (P : A → Type 0) (m : MemoryStore) (l : L)
    (r : Outcome Error A × Service L) : Type 0 where
  pub store : r.1.store ≡ m
  pub log : r.1.log ≡ l
  pub value : (a : A) → r.0 ≡ ok a → P a

-- The call leaves the log alone, and has the effect on the store.
pub record Acts {L A : Type 0} (effect : MemoryStore → Effect A) (s : Service L)
    (r : Outcome Error A × Service L) : Type 0 where
  pub log : r.1.log ≡ s.log
  pub outcome : r.0 ≡ (effect s.store).0
  pub store : r.1.store ≡ (effect s.store).1

abbrev pub written : {A : Type 0} → Method A → Effect A
written (ok a, m) = (ok a, m)
written (err _, m) = (err store_failed, m)
written (panic, m) = (panic, m)

pub writes-Acts :
    {L A : Type 0} (f : MemoryStore → Method A) (t : Service L)
    → Acts (λ m. written (f m)) t (wrote (f t.store) t)
unfolding wrote
writes-Acts f t = record { log = ground arith; outcome = ground arith; store = ground arith }

abbrev pub then_effect : {A B : Type 0} → Effect A → (A → MemoryStore → Effect B) → Effect B
then_effect (ok a, m) g = g a m
then_effect (err e, m) g = (err e, m)
then_effect (panic, m) g = (panic, m)

-- The call, whose value is dropped.
abbrev pub dropped :
    {L A : Type 0} → Outcome Error A × Service L → Outcome Error (Unit {0}) × Service L
dropped r = and_then r (λ _. pure tt)

pub audit-Acts :
    {L : Type 0} (method id agent : String) (t : Service L)
    → Acts (λ m. (ok tt, m)) t (audit method id agent t)
unfolding audit
audit-Acts method id agent t = record { log = refl; outcome = refl; store = refl }

pub stored-written :
    {A : Type 0} (r : Method A) → then_effect (written r) (λ _ m. (ok tt, m)) ≡ stored r
stored-written (ok _, m) = refl
stored-written (err _, m) = refl
stored-written (panic, m) = refl

module _ {L : Type 0} (x : Outside L) where
  -- A call on a service with the store m and the log l. It fails before it gets to the log; or the
  -- log refuses the payload, and the call fails and leaves the store; or the log accepts the payload,
  -- and the call has the given outcome and store. In both the latter the service keeps the log that
  -- the submission leaves.
  pub data Ordered {A : Type 0} (payload : List ℕ) (effect : Effect A) (m : MemoryStore) (l : L)
      (r : Outcome Error A × Service L) : Type 0 where
    unsent : is_ok r.0 ≡ false → r.1.store ≡ m → r.1.log ≡ l → Ordered payload effect m l r
    refused :
        (x.submit payload l).0 ≡ false
        → r.0 ≡ err not_ordered
        → r.1.store ≡ m
        → r.1.log ≡ (x.submit payload l).1
        → Ordered payload effect m l r
    accepted :
        (x.submit payload l).0 ≡ true
        → r.0 ≡ effect.0
        → r.1.store ≡ effect.1
        → r.1.log ≡ (x.submit payload l).1
        → Ordered payload effect m l r

  module _ (m : MemoryStore) (l : L) where
    pub Reads-then :
        {A B : Type 0} {P : A → Type 0} {Q : B → Type 0} (r : Outcome Error A × Service L)
        (f : A → M L B)
        → Reads P m l r
        → ((a : A) → P a → (t : Service L) → t.store ≡ m → t.log ≡ l → Reads Q m l (f a t))
        → Reads Q m l (and_then r f)
    unfolding and_then
    Reads-then (ok a, t) f k h = h a (k.value a refl) t k.store k.log
    Reads-then (err e, t) f k h = record {
      store = k.store;
      log = k.log;
      value = λ a q. ground arith;
    }
    Reads-then (panic, t) f k h = record {
      store = k.store;
      log = k.log;
      value = λ a q. ground arith;
    }

    pub Reads-Ordered :
        {A B : Type 0} {P : A → Type 0} (payload : List ℕ) (effect : Effect B)
        (r : Outcome Error A × Service L) (f : A → M L B)
        → Reads P m l r
        → ((a : A)
            → P a
            → (t : Service L) → t.store ≡ m
            → t.log ≡ l
            → Ordered payload effect m l (f a t))
        → Ordered payload effect m l (and_then r f)
    unfolding and_then
    Reads-Ordered payload effect (ok a, t) f k h = h a (k.value a refl) t k.store k.log
    Reads-Ordered payload effect (err e, t) f k h = unsent refl k.store k.log
    Reads-Ordered payload effect (panic, t) f k h = unsent refl k.store k.log

    pub Reads-dropped :
        {A B : Type 0} {P : A → Type 0} (payload : List ℕ) (effect : Effect (Unit {0}))
        (r : Outcome Error A × Service L) (f : A → M L B)
        → Reads P m l r
        → ((a : A)
            → P a
            → (t : Service L) → t.store ≡ m
            → t.log ≡ l
            → Ordered payload effect m l (dropped (f a t)))
        → Ordered payload effect m l (dropped (and_then r f))
    unfolding and_then
    Reads-dropped payload effect (ok a, t) f k h = h a (k.value a refl) t k.store k.log
    Reads-dropped payload effect (err e, t) f k h = unsent refl k.store k.log
    Reads-dropped payload effect (panic, t) f k h = unsent refl k.store k.log

    pub Ordered-as :
        {A : Type 0} {payload payload' : List ℕ} {effect effect' : Effect A}
        {r : Outcome Error A × Service L}
        → payload ≡ payload'
        → effect ≡ effect'
        → Ordered payload effect m l r
        → Ordered payload' effect' m l r
    Ordered-as {payload = pl} {effect' = e'} {r = r} p e o =
        subst (λ pl. Ordered pl e' m l r) p (subst (λ e. Ordered pl e m l r) e o)

    -- What follows the entry in the log.
    pub Ordered-then :
        {A B : Type 0} (payload : List ℕ) (effect : Effect A) (g : A → MemoryStore → Effect B)
        (r : Outcome Error A × Service L) (f : A → M L B)
        → Ordered payload effect m l r
        → ((a : A) (t : Service L) → Acts (g a) t (f a t))
        → Ordered payload (then_effect effect g) m l (and_then r f)
    unfolding and_then
    Ordered-then payload effect g (ok a, t) f (accepted done o w k) h =
        let c = h a t in
        let e : effect ≡ (ok a, t.store) = ground arith in
        rw e (accepted done c.outcome c.store (c.log ∙ k))
    Ordered-then payload effect g (err e, t) f (accepted done o w k) h =
        let q : effect ≡ (err e, t.store) = ground arith in rw q (accepted done refl refl k)
    Ordered-then payload effect g (panic, t) f (accepted done o w k) h =
        let q : effect ≡ (panic, t.store) = ground arith in rw q (accepted done refl refl k)
    Ordered-then payload effect g (ok a, t) f (refused no_entry failed w k) h =
        absurd (ground arith)
    Ordered-then payload effect g (err e, t) f (refused no_entry failed w k) h =
        refused no_entry (ground arith) w k
    Ordered-then payload effect g (panic, t) f (refused no_entry failed w k) h =
        refused no_entry (ground arith) w k
    Ordered-then payload effect g (ok a, t) f (unsent failed w k) h = absurd (ground arith)
    Ordered-then payload effect g (err e, t) f (unsent failed w k) h = unsent refl w k
    Ordered-then payload effect g (panic, t) f (unsent failed w k) h = unsent refl w k

    pub Ordered-dropped :
        {A : Type 0} (payload : List ℕ) (effect : Effect A) (r : Outcome Error A × Service L)
        → Ordered payload effect m l r
        → Ordered payload (then_effect effect (λ _ n. (ok tt, n))) m l (dropped r)
    Ordered-dropped payload effect r o =
        Ordered-then payload effect (λ _ n. (ok tt, n)) r (λ _. pure tt) o
          (λ _ t. record { log = refl; outcome = refl; store = refl })

    module _ (t : Service L) (store : t.store ≡ m) (log : t.log ≡ l) where
      pub refuse_if-Reads : (b : Bool) (e : Error) → Reads (λ _. Unit {0}) m l (refuse_if b e t)
      unfolding refuse_if
      refuse_if-Reads true e = record { store = store; log = log; value = λ a q. tt }
      refuse_if-Reads false e = record { store = store; log = log; value = λ a q. tt }

      pub found-Reads :
          {A : Type 0} (o : Outcome State.Error A) (e : Error)
          → Reads (λ a. o ≡ ok a) m l (found o e t)
      unfolding found
      found-Reads (ok a) e = record { store = store; log = log; value = λ b q. ground arith }
      found-Reads (err _) e = record { store = store; log = log; value = λ b q. ground arith }
      found-Reads panic e = record { store = store; log = log; value = λ b q. ground arith }

      pub looks_up-Reads :
          {A : Type 0} (f : MemoryStore → Outcome State.Error A) (e : Error)
          → Reads (λ a. f m ≡ ok a) m l (found (f t.store) e t)
      looks_up-Reads f e =
          let r = found-Reads (f t.store) e in
          record {
            store = r.store;
            log = r.log;
            value = λ a q. subst (λ n. f n ≡ ok a) store (r.value a q);
          }

      pub value-Reads : {A : Type 0} (a : A) → Reads (λ _. Unit {0}) m l (ok a, t)
      value-Reads a = record { store = store; log = log; value = λ b q. tt }

      pub order_action-Ordered :
          (op : String) (parts : List String)
          → Ordered (payload_text op parts) (ok tt, m) m l (order_action x op parts t)
      unfolding order_action
      order_action-Ordered op parts =
          rw (order_action, log)
            (elim (Bool-cases (x.submit (payload_text op parts) l).0) [
              | inl done ↦ accepted done (ground arith) (ground arith) (ground arith)
              | inr no_entry ↦ refused no_entry (ground arith) (ground arith) (ground arith)
            ])
