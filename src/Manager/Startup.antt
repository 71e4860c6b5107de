-- ===== src/Manager/Startup.antt =====
-- The start of the manager: which calls are made, and how the process ends.
use trussium_operator.Prelude.{◌≡◌, refl, sym, ap, subst, ◌∙◌, ◌⊎◌, inl, inr, List, [], ◌∷◌, ◌++◌}
use mathlib.Core.List.{append_assoc, append-nil}
use trussium_operator.Kube.Errors.{Error, Result, ok, err}
use trussium_operator.Reconcile.Wiring.{setup_with_manager}
use trussium_operator.Manager.{
  Flags, manager_options, Call, get_config, new_manager, set_up, add_healthz_check,
  add_readyz_check, start, exited, returned, Host, Run, or_exit, try_call, main,
}

Result-cases : (x : Result (Unit {0})) → (x ≡ ok tt) ⊎ ((e : Error) × (x ≡ err e))
Result-cases (ok tt) = inl refl
Result-cases (err e) = inr (e, refl)

module _ {Scheme : Type 0} (host : Host Scheme) where
  -- The calls `todo`, made after `made`, all succeed.
  abbrev pub Answered : List (Call Scheme) → List (Call Scheme) → Type 0
  Answered made [] = Unit
  Answered made (call ∷ todo) = (host made call ≡ ok tt) × Answered (made ++ (call ∷ [])) todo

  -- The calls `todo` are made after `made`, up to the first that fails.
  abbrev pub Sequence : List (Call Scheme) → List (Call Scheme) → Run Scheme → Type 0
  Sequence made todo run =
      ((run.0 ≡ returned) × (run.1 ≡ made ++ todo) × Answered made todo)
      ⊎ ((before : List (Call Scheme)) × (call : Call Scheme) × (after : List (Call Scheme))
          × (e : Error) × (todo ≡ before ++ (call ∷ after))
          × Answered made before
          × (host (made ++ before) call ≡ err e)
          × (run.0 ≡ exited 1)
          × (run.1 ≡ made ++ (before ++ (call ∷ []))))

  Sequence-ok :
      (call : Call Scheme) (todo made : List (Call Scheme)) (run : Run Scheme)
      → host made call ≡ ok tt
      → Sequence (made ++ (call ∷ [])) todo run
      → Sequence made (call ∷ todo) run
  Sequence-ok call todo made run done (inl (back, all, answered)) =
      inl (back, all ∙ append_assoc made (call ∷ []) todo, (done, answered))
  Sequence-ok call todo made run done
        (inr (before, last, after, e, split, answered, failed, exit, out)) =
      inr (
        call ∷ before,
        last,
        after,
        e,
        ap (λ l. call ∷ l) split,
        (done, answered),
        ap (λ l. host l last) (sym (append_assoc made (call ∷ []) before)) ∙ failed,
        exit,
        out ∙ append_assoc made (call ∷ []) (before ++ (last ∷ [])),
      )

  try_call-Sequence :
      (call : Call Scheme) (rest : List (Call Scheme) → Run Scheme) (todo : List (Call Scheme))
      → ((made : List (Call Scheme)) → Sequence made todo (rest made))
      → (made : List (Call Scheme)) → Sequence made (call ∷ todo) (try_call host call rest made)
  unfolding try_call
  try_call-Sequence call rest todo later made = elim (Result-cases (host made call)) [
    | inl h ↦
        subst (λ x. Sequence made (call ∷ todo) (or_exit x (made ++ (call ∷ [])) rest)) (sym h)
          (Sequence-ok call todo made (rest (made ++ (call ∷ []))) h (later (made ++ (call ∷ []))))
    | inr (e, h) ↦ inr (
      [],
      call,
      todo,
      e,
      refl,
      tt,
      ap (λ l. host l call) (append-nil made) ∙ h,
      ap (λ x. (or_exit x (made ++ (call ∷ [])) rest).0) h,
      ap (λ x. (or_exit x (made ++ (call ∷ [])) rest).1) h,
    )
  ]

  -- The six calls of main, for the options that the flags make.
  abbrev pub startup : Scheme → Flags → List (Call Scheme)
  startup scheme f =
      get_config
      ∷ new_manager (manager_options scheme f)
      ∷ set_up setup_with_manager
      ∷ add_healthz_check "healthz"
      ∷ add_readyz_check "readyz"
      ∷ start
      ∷ []

  -- main makes its six calls in order: the configuration, the manager, the controller, the two checks
  -- and the start. Either all of them succeed, and main returns, or the first that fails is the last
  -- that is made, and the process exits with 1. So the manager is started only when all before
  -- has succeeded.
  pub main-Sequence :
      (scheme : Scheme) (f : Flags) → Sequence [] (startup scheme f) (main host scheme f)
  unfolding main
  main-Sequence scheme f =
      try_call-Sequence _ _ _
        (try_call-Sequence _ _ _ (
          try_call-Sequence _ _ _ (
            try_call-Sequence _ _ _ (
              try_call-Sequence _ _ _
                (try_call-Sequence _ _ _ (λ made. inl (refl, sym (append-nil made), tt)))))))
        []
