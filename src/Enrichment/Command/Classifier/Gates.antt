-- ===== src/Enrichment/Command/Classifier/Gates.antt =====
-- What the classifier of crates/enrichment-engine/src/extractors/command_extractor.rs lets through.
use bastion.Base.{
  ◌≡◌, refl, Bool, true, false, not, ◌&&◌, ◌||◌, Option, none, some, List, [], ◌∷◌, map, nat_eq,
  All, All-append, if◌then◌else◌, Text, text_eq, ◌==◌, codes, drop, Option-cases, inl, inr,
  either-branch, arith,
}
use bastion.Base.Chars.{starts_with}
use bastion.Rules.Facts.{Fact}
use bastion.Enrichment.Command.Tokenizer.{byte_len}
use bastion.Enrichment.Command.Classifier.{
  CommandExtractorPolicy, Effect, fact, nothing, when, strip_prefix, flag_effect, exclusion_effect,
  property_effect, profile_effect, plain_effect, token_effect, classify_rest, goal_facts,
  target_facts, classify,
}

-- The policy allows facts with this key.
abbrev pub permits : CommandExtractorPolicy → Text → Bool
permits policy key =
    (not (key == codes "command_flag") || policy.allow_flags)
    && (not (key == codes "command_option") || policy.allow_options)
    && (not (key == codes "command_target") || policy.allow_targets)

module _ (policy : CommandExtractorPolicy) (source : Text) where
  abbrev Permitted : Fact → Type 0
  Permitted f = permits policy f.key ≡ true

  abbrev Fine : Effect → Type 0
  Fine effect = All Permitted effect.facts

  -- An effect behind a gate is fine if it is where the gate is open.
  when-Fine :
      (gate : Bool) (effect : Effect) → (gate ≡ true → Fine effect) → Fine (when gate effect)
  when-Fine true effect h = h refl
  when-Fine false effect h = tt

  flag_allowed : policy.allow_flags ≡ true → permits policy (codes "command_flag") ≡ true
  flag_allowed h = rw h refl

  option_allowed : policy.allow_options ≡ true → permits policy (codes "command_option") ≡ true
  option_allowed h = rw h refl

  flag-Fine : (flag_rest : Text) → policy.allow_flags ≡ true → Fine (flag_effect source flag_rest)
  unfolding flag_effect
  flag-Fine flag_rest h = ground (arith, flag_allowed h)

  exclusion-Fine :
      (token task : Text) (next : Option Text)
      → policy.allow_options ≡ true
      → Fine (exclusion_effect source token task next)
  unfolding exclusion_effect
  exclusion-Fine token (c ∷ task) next h = (option_allowed h, tt)
  exclusion-Fine token [] none h = tt
  exclusion-Fine token [] (some next) h =
      either-branch Fine (starts_with next (codes "-")) nothing _ tt (option_allowed h, tt)

  property-Fine :
      (token d_arg : Text) → policy.allow_options ≡ true → Fine (property_effect source token d_arg)
  unfolding property_effect
  property-Fine token d_arg h = ground (arith, option_allowed h)

  profile-Fine :
      (token profile : Text)
      → policy.allow_options ≡ true
      → Fine (profile_effect source token profile)
  unfolding profile_effect
  profile-Fine token [] h = tt
  profile-Fine token (c ∷ profile) h = (option_allowed h, tt)

  plain-Fine : (token : Text) → Fine (plain_effect policy source token)
  unfolding plain_effect
  plain-Fine token =
      either-branch Fine (nat_eq (byte_len token) 2 && starts_with token (codes "-")) _ _
        (when-Fine policy.allow_flags _ (λ h. (flag_allowed h, tt))) tt

  token-Fine : (token : Text) (next : Option Text) → Fine (token_effect policy source token next)
  unfolding token_effect
  token-Fine token next = elim (Option-cases (strip_prefix token (codes "--"))) [
    | inr (flag_rest, e) ↦ rw e (when-Fine policy.allow_flags _ (flag-Fine flag_rest))
    | inl long ↦ elim (Option-cases (strip_prefix token (codes "-x"))) [
      | inr (task, e) ↦
          rw (long, e) (when-Fine policy.allow_options _ (exclusion-Fine token task next))
      | inl no_task ↦ elim (Option-cases (strip_prefix token (codes "-D"))) [
        | inr (d_arg, e) ↦
            rw (long, no_task, e) (when-Fine policy.allow_options _ (property-Fine token d_arg))
        | inl no_property ↦ elim (Option-cases (strip_prefix token (codes "-P"))) [
          | inr (profile, e) ↦
              rw (long, no_task, no_property, e)
                (when-Fine policy.allow_options _ (profile-Fine token profile))
          | inl no_profile ↦ rw (long, no_task, no_property, no_profile) (plain-Fine token)
        ]
      ]
    ]
  ]

  classify_rest-All : (tokens : List Text) → All Permitted (classify_rest policy source tokens).0
  unfolding classify_rest
  classify_rest-All [] = tt
  classify_rest-All (token ∷ []) =
      All-append Permitted (token_effect policy source token none).facts [] (token-Fine token none)
        tt
  classify_rest-All (token ∷ next ∷ tokens) =
      let effect = token_effect policy source token (some next) in
      All-append Permitted effect.facts _ (token-Fine token (some next)) (
        either-branch (λ (r : List Fact × List Text). All Permitted r.0) effect.skips _ _
          (classify_rest-All tokens) (classify_rest-All (next ∷ tokens)))

  goal-All : (tokens : List Text) → All Permitted (goal_facts policy source tokens)
  unfolding goal_facts
  goal-All [] = tt
  goal-All (goal ∷ tokens) =
      either-branch (All Permitted)
        (starts_with goal (codes "-D")
          || starts_with goal (codes "-P")
          || starts_with goal (codes "-x"))
        [] _ tt (refl, (refl, tt))

  map-target-All :
      (targets : List Text)
      → policy.allow_targets ≡ true
      → All Permitted (map (λ target. fact source (codes "command_target") target []) targets)
  map-target-All [] h = tt
  map-target-All (target ∷ targets) h = (rw h refl, map-target-All targets h)

  gated_All :
      (gate : Bool) (facts : List Fact)
      → (gate ≡ true → All Permitted facts)
      → All Permitted (if gate then facts else [])
  gated_All true facts h = h refl
  gated_All false facts h = tt

  target-All : (targets : List Text) → All Permitted (target_facts policy source targets)
  unfolding target_facts
  target-All targets = gated_All policy.allow_targets _ (map-target-All targets)

  -- The classifier gives no fact about flags, options or targets that the policy does not allow.
  pub classify-permits :
      (tokens : List Text)
      → All (λ (f : Fact). permits policy f.key ≡ true) (classify tokens policy source)
  unfolding classify
  classify-permits [] = tt
  classify-permits (executable ∷ tokens) =
      let rest = classify_rest policy source (drop 1 tokens) in
      (
        refl,
        (
          refl,
          All-append Permitted (goal_facts policy source tokens) _ (goal-All tokens) (
              All-append Permitted rest.0 _ (classify_rest-All (drop 1 tokens))
                (target-All rest.1)),
        ),
      )
