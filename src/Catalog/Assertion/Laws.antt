-- ===== src/Catalog/Assertion/Laws.antt =====
-- The checks of an assertion together, crates/bastion-infrastructure/src/evaluation/legacy_cel_shim.rs.
use bastion.Base.{
  ℕ, ◌≡◌, refl, ◌∙◌, inl, inr, Bool, true, false, ◌&&◌, Option, none, some, List, [], ◌∷◌, ◌++◌,
  Text, codes, all, leb, Bool-cases, arith, ◌==◌,
}
use bastion.Base.Int.{ℤ, ℤ_eq}
use bastion.Base.Chars.{contains}
use bastion.Catalog.Experience.{ExperienceRecord, duration_ms}
use bastion.Catalog.Assertion.{
  AssertionCheck, check_code, check_duration, check_contains, evaluate_check, note, descriptor_loop,
  verdict_of, evaluate_assertion_descriptor,
}

-- A verdict has a reason exactly if it is a failure.
abbrev pub Explained : Bool × Option Text → Type 0
Explained (true, reason) = reason ≡ none
Explained (false, reason) = (t : Text) × (reason ≡ some t)

module _ (debug : Text → Text) where
  code-Explained : (expected : ℤ) (o : Option ℤ) → Explained (check_code expected o)
  code-Explained expected none = (_, refl)
  code-Explained expected (some code) = elim (Bool-cases (code == expected)) [
    | inl same ↦ rw same refl
    | inr other ↦ rw other (_, refl)
  ]

  duration-Explained : (max_ms : ℕ) (o : Option ℕ) → Explained (check_duration max_ms o)
  duration-Explained max_ms none = (_, refl)
  duration-Explained max_ms (some dur) = elim (Bool-cases (leb dur max_ms)) [
    | inl within ↦ rw within refl
    | inr over ↦ rw over (_, refl)
  ]

  contains-Explained : (stream text sub : Text) → Explained (check_contains debug stream text sub)
  contains-Explained stream text sub = elim (Bool-cases (contains text sub)) [
    | inl found ↦ rw found refl
    | inr absent ↦ rw absent (_, refl)
  ]

  check-Explained :
      (c : AssertionCheck) (r : ExperienceRecord) → Explained (evaluate_check debug c r)
  unfolding evaluate_check
  check-Explained (AssertionCheck.exit_code n) r = code-Explained n r.exit_code
  check-Explained (AssertionCheck.stdout_contains s) r =
      contains-Explained (codes "stdout") r.stdout_summary s
  check-Explained (AssertionCheck.stderr_contains s) r =
      contains-Explained (codes "stderr") r.stderr_summary s
  check-Explained (AssertionCheck.stdout_matches s) r = refl
  check-Explained AssertionCheck.sandbox_alive r = refl
  check-Explained (AssertionCheck.command_duration ms) r = duration-Explained ms (duration_ms r)

  abbrev passes : ExperienceRecord → AssertionCheck → Bool
  passes r c = (evaluate_check debug c r).0

  -- What the loop knows: it has failed exactly if it has reasons.
  abbrev Tracks : Bool × List Text → Type 0
  Tracks (true, reasons) = reasons ≡ []
  Tracks (false, reasons) = (t : Text) × (ts : List Text) × (reasons ≡ t ∷ ts)

  append_some :
      (ts : List Text) (t : Text) → (u : Text) × (us : List Text) × (ts ++ t ∷ [] ≡ u ∷ us)
  append_some [] t = (t, [], refl)
  append_some (u ∷ us) t = (u, us ++ t ∷ [], refl)

  note-Tracks :
      (v : Bool × Option Text) (acc : Bool × List Text)
      → Explained v
      → Tracks acc
      → Tracks (note debug v acc) × ((note debug v acc).0 ≡ (acc.0 && v.0))
  note-Tracks (true, reason) (true, reasons) e k = (k, refl)
  note-Tracks (true, reason) (false, reasons) e k = (k, refl)
  note-Tracks (false, none) acc (t, e) k = absurd (grind arith)
  note-Tracks (false, some reason) (true, reasons) e k = (append_some reasons reason, refl)
  note-Tracks (false, some reason) (false, reasons) e k = (append_some reasons reason, refl)

  loop-Tracks :
      (checks : List AssertionCheck) (r : ExperienceRecord) (acc : Bool × List Text)
      → Tracks acc
      → Tracks (descriptor_loop debug checks r acc)
        × ((descriptor_loop debug checks r acc).0 ≡ (acc.0 && all (passes r) checks))
  unfolding descriptor_loop
  loop-Tracks [] r acc k = (k, ground arith)
  loop-Tracks (c ∷ cs) r acc k =
      let (noted, now) = note-Tracks (evaluate_check debug c r) acc (check-Explained c r) k in
      let (tracked, rest) = loop-Tracks cs r (note debug (evaluate_check debug c r) acc) noted in
      (tracked, rest ∙ ground (arith, now))

  verdict-Explained :
      (acc : Bool × List Text)
      → Tracks acc
      → Explained (verdict_of debug acc) × ((verdict_of debug acc).0 ≡ acc.0)
  verdict-Explained (true, []) k = (refl, refl)
  verdict-Explained (true, t ∷ ts) k = absurd (grind arith)
  verdict-Explained (false, []) (t, ts, k) = absurd (grind arith)
  verdict-Explained (false, t ∷ ts) k = ((_, refl), refl)

  -- An assertion passes exactly if each of its checks does, and there is a reason exactly if it
  -- fails.
  pub descriptor-all :
      (checks : List AssertionCheck) (r : ExperienceRecord)
      → ((evaluate_assertion_descriptor debug checks r).0
          ≡ all (λ c. (evaluate_check debug c r).0) checks)
        × Explained (evaluate_assertion_descriptor debug checks r)
  unfolding evaluate_assertion_descriptor
  descriptor-all checks r =
      let (tracked, passed) = loop-Tracks checks r (true, []) refl in
      let (explained, same) =
        verdict-Explained (descriptor_loop debug checks r (true, [])) tracked in
      (same ∙ passed, explained)
