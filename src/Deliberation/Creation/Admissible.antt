-- ===== src/Deliberation/Creation/Admissible.antt =====
-- What a deliberation that CreateDeliberation made is like.
use gemot.Prelude.{
  ℕ, ◌≡◌, refl, sym, ap, ◌∙◌, subst, Map, inl, inr, Bool, true, false, not, List, some, String, len,
  ltb, get, string_key, arith, Option-cases, get-put, str_eq_refl,
}
use gemot.Prelude.Outcomes.{Outcome, ok, err, panic}
use gemot.Memory.Records.{Deliberation}
use gemot.Memory.State.{MemoryStore, Method, or_default}
use gemot.Memory.Deliberations.{create_deliberation, complete, write, mark_changed}
use gemot.Deliberation.Service.{
  Service, M, Error, too_long, refuse_if, and_then, wrote, audit, emit,
}
use gemot.Deliberation.Creation.{
  DeliberationOption, is_known_template, is_valid_type, is_valid_visibility, admit_creator,
  announce, create_checked, service_create_deliberation, apply_all, blank_deliberation,
}

-- A known template or none, a valid type or none, and a valid visibility.
pub record IsAdmissible (d : Deliberation) : Type 0 where
  pub template : is_known_template d.template ≡ true
  pub kind : is_valid_type d.kind ≡ true
  pub visibility : is_valid_visibility d.visibility ≡ true

create_deliberation-ok :
    (fresh : String) (now : ℕ) (d made : Deliberation) (m : MemoryStore)
    → (create_deliberation fresh now d m).0 ≡ ok made
    → (made ≡ complete fresh now d)
      × (get made.id (create_deliberation fresh now d m).1.deliberations ≡ some made)
unfolding create_deliberation complete write mark_changed
create_deliberation-ok fresh now d made m h =
    let d' = complete fresh now d in
    elim (Option-cases (get d'.id m.deliberations)) [
      | inr (old, e) ↦ ground arith
      | inl e ↦ ground (arith, get-put d'.id d'.id d' m.deliberations, str_eq_refl d'.id)
    ]

complete-IsAdmissible :
    (fresh : String) (now : ℕ) (d made' made : Deliberation)
    → made' ≡ complete fresh now d
    → made' ≡ made
    → not (is_known_template d.template) ≡ false
    → not (is_valid_type d.kind) ≡ false
    → not (is_valid_visibility d.visibility) ≡ false
    → IsAdmissible made
unfolding complete
complete-IsAdmissible fresh now d made' made e e' known valid visible = record {
  template = ground arith;
  kind = ground arith;
  visibility = ground arith;
}

module _ {L : Type 0} where
  and_then-ok :
      {A B : Type 0} (r : Outcome Error A × Service L) (f : A → M L B) (b : B)
      → (and_then r f).0 ≡ ok b
      → (a : A) × (t : Service L) × (r ≡ (ok a, t)) × (and_then r f ≡ f a t)
  unfolding and_then
  and_then-ok (ok a, t) f b h = (a, t, refl, refl)
  and_then-ok (err e, t) f b h = cc
  and_then-ok (panic, t) f b h = cc

  refuse_if-ok :
      (bad : Bool) (e : Error) (a : Unit {0}) (s t : Service L)
      → refuse_if bad e s ≡ (ok a, t)
      → (bad ≡ false) × (t ≡ s)
  unfolding refuse_if
  refuse_if-ok true e a s t h = cc
  refuse_if-ok false e a s t h = (refl, cc)

  wrote-ok :
      {A : Type 0} (r : Method A) (a : A) (s t : Service L)
      → wrote r s ≡ (ok a, t)
      → (r.0 ≡ ok a) × (t.store ≡ r.1)
  unfolding wrote
  wrote-ok (ok b, m) a s t h = (ground arith, ground arith)
  wrote-ok (err e, m) a s t h = cc
  wrote-ok (panic, m) a s t h = cc

  announce-ok :
      (made : Deliberation) (s : Service L)
      → ((announce made s).0 ≡ ok made)
        × ((announce made s).1.store.deliberations ≡ s.store.deliberations)
  unfolding announce and_then admit_creator audit emit
  announce-ok made s = (refl, ground arith)

  -- Three refusals that let through what follows.
  three_passed :
      (b c d : Bool) (e f g : Error) (a : Unit {0}) (s t : Service L)
      → and_then (and_then (refuse_if b e s) (λ _. refuse_if c f)) (λ _. refuse_if d g) ≡ (ok a, t)
      → (b ≡ false) × (c ≡ false) × (d ≡ false) × (t ≡ s)
  unfolding refuse_if and_then
  three_passed true c d e f g a s t h = cc
  three_passed false true d e f g a s t h = cc
  three_passed false false true e f g a s t h = cc
  three_passed false false false e f g a s t h = (refl, refl, refl, cc)

  create_checked-ok :
      (fresh : String) (now : ℕ) (d made : Deliberation) (s : Service L)
      → (create_checked fresh now d s).0 ≡ ok made
      → IsAdmissible made
        × (get made.id (create_checked fresh now d s).1.store.deliberations ≡ some made)
  unfolding create_checked
  create_checked-ok fresh now d made s h =
      let d' : Deliberation = record d { visibility = or_default "open" d.visibility } in
      let (made', t, written, last) = and_then-ok _ announce made h in
      let (a, t', passed, at) =
        and_then-ok _ (λ _ u. wrote (create_deliberation fresh now d' u.store) u) made'
          (ap (λ (r : Outcome Error Deliberation × Service L). r.0) written) in
      let (known, valid, visible, same) = three_passed _ _ _ _ _ _ a s t' passed in
      let (done, stored) = wrote-ok _ made' t' t (sym at ∙ written) in
      let (is_complete, held) = create_deliberation-ok fresh now d' made' t'.store done in
      let (is_ok, kept) = announce-ok made' t in
      let made_is : made' ≡ made =
        cc (is_ok, ap (λ (r : Outcome Error Deliberation × Service L). r.0) last, h) in
      let whole : (create_checked fresh now d s).1.store.deliberations
          ≡ (create_deliberation fresh now d' t'.store).1.deliberations =
        ap (λ (r : Outcome Error Deliberation × Service L). r.1.store.deliberations) last
        ∙ kept
        ∙ ap (λ (m : MemoryStore). m.deliberations) stored in
      (
        complete-IsAdmissible fresh now d' made' made is_complete made_is known valid visible,
        subst
            (λ (k : Deliberation).
              get k.id (create_checked fresh now d s).1.store.deliberations ≡ some k)
            made_is (ap (λ (ds : Map String Deliberation). get made'.id ds) whole ∙ held),
      )

  -- What holds of a successful call holds of it behind two refusals.
  two_passed :
      (b c : Bool) (e f : Error) (k : M L Deliberation) (made : Deliberation) (s : Service L)
      → (P : Outcome Error Deliberation × Service L → Type 0) → ((k s).0 ≡ ok made → P (k s))
      → (and_then (and_then (refuse_if b e s) (λ _. refuse_if c f)) (λ _. k)).0 ≡ ok made
      → P (and_then (and_then (refuse_if b e s) (λ _. refuse_if c f)) (λ _. k))
  unfolding refuse_if and_then
  two_passed true c e f k made s P g h = cc
  two_passed false true e f k made s P g h = cc
  two_passed false false e f k made s P g h = g h

  -- A deliberation that CreateDeliberation returns, whatever the options, has a template that is known
  -- or none, a valid type or none, and the visibility open, private or link, and the store holds it
  -- under its id.
  pub create_deliberation-Admissible :
      (fresh : String) (now : ℕ) (topic description : String) (opts : List DeliberationOption)
      (made : Deliberation) (s : Service L)
      → (service_create_deliberation fresh now topic description opts s).0 ≡ ok made
      → IsAdmissible made
        × (get made.id
              (service_create_deliberation fresh now topic description opts s).1.store.deliberations
            ≡ some made)
  unfolding service_create_deliberation
  create_deliberation-Admissible fresh now topic description opts made s h =
      two_passed (ltb 500 (len topic)) (ltb 5000 (len description)) too_long too_long
        (create_checked fresh now (apply_all opts (blank_deliberation topic description))) made s
        (λ (r : Outcome Error Deliberation × Service L).
          IsAdmissible made × (get made.id r.1.store.deliberations ≡ some made))
        (create_checked-ok fresh now (apply_all opts (blank_deliberation topic description)) made s)
        h
