-- ===== src/Provider/Instance/Laws.antt =====
-- Names and statuses of instances, crates/bastion-domain/src/provider/instance.rs.
use Prim.Native.String.{String}
use bastion.Base.{
  ℕ, ◌≡◌, ◌≢◌, ◌⊎◌, refl, inl, inr, true, false, Option, List, [], ◌∷◌, any, nat_eq, All,
  Bool-cases, Text, codes, arith,
}
use bastion.Base.Chars.{contains}
use bastion.Sandbox.Errors.{ok, err, validation}
use bastion.Provider.Config.{ProviderInstanceConfig}
use bastion.Provider.Constraints.{InstanceConstraints}
use bastion.Provider.Instance.{
  is_valid_name, loading, offline, ProviderInstance, new_instance, mark_active, mark_degraded,
  mark_offline, mark_instance_failed,
}

-- No two dots in a row.
abbrev pub NoTwoDots : Text → Type 0
NoTwoDots [] = Unit {0}
NoTwoDots (c ∷ []) = Unit {0}
NoTwoDots (c ∷ d ∷ s) = ((c ≢ b'.') ⊎ (d ≢ b'.')) × NoTwoDots (d ∷ s)

-- The character is none of the text's.
abbrev pub Lacks : ℕ → Text → Type 0
Lacks c text = All (λ d. d ≢ c) text

-- A name that can be part of a file's path and stays in its directory.
abbrev pub IsPlainName : Text → Type 0
IsPlainName name =
    (name ≢ [])
    × NoTwoDots name
    × Lacks b'/' name
    × Lacks b'\\' name
    × Lacks b':' name
    × Lacks 0 name

absent-Lacks : (c : ℕ) (name : Text) → any (nat_eq c) name ≡ false → Lacks c name
absent-Lacks c [] h = tt
absent-Lacks c (d ∷ name) h = (λ same. ground arith, absent-Lacks c name (ground arith))

contains-NoTwoDots : (name : Text) → contains name (codes "..") ≡ false → NoTwoDots name
unfolding contains
contains-NoTwoDots [] h = tt
contains-NoTwoDots (c ∷ []) h = tt
contains-NoTwoDots (c ∷ d ∷ s) h =
    let apart : (c ≢ b'.') ⊎ (d ≢ b'.') = elim (Bool-cases (nat_eq c b'.')) [
      | inl first ↦ inr (λ second. ground arith)
      | inr other ↦ inl (λ first. ground arith)
    ] in
    (apart, contains-NoTwoDots (d ∷ s) (ground arith))

some_name : (name : Text) → is_valid_name name ≡ true → name ≢ []
unfolding is_valid_name
some_name [] h none_there = cc
some_name (c ∷ name) h none_there = grind arith

is_valid_name-IsPlainName : (name : Text) → is_valid_name name ≡ true → IsPlainName name
unfolding is_valid_name
is_valid_name-IsPlainName name h =
    let no_dots : contains name (codes "..") ≡ false = ground arith in
    let no_slash : any (nat_eq b'/') name ≡ false = ground arith in
    let no_backslash : any (nat_eq b'\\') name ≡ false = ground arith in
    let no_colon : any (nat_eq b':') name ≡ false = ground arith in
    let no_null : any (nat_eq 0) name ≡ false = ground arith in
    (
      some_name name h,
      contains-NoTwoDots name no_dots,
      absent-Lacks b'/' name no_slash,
      absent-Lacks b'\\' name no_backslash,
      absent-Lacks b':' name no_colon,
      absent-Lacks 0 name no_null,
    )

-- An instance that is made is loading and has the name that was given; the name is not empty and holds
-- no two dots in a row, slash, backslash, colon or null character.
pub new_instance-IsPlainName :
    (now : ℕ) (id : String) (type_id name display_name : Text) (description : Option Text)
    (config : ProviderInstanceConfig) (constraints : InstanceConstraints) (i : ProviderInstance)
    → new_instance now id type_id name display_name description config constraints ≡ ok i
    → IsPlainName name × (i.name ≡ name) × (i.status ≡ loading) × (i.created_at ≡ now)
unfolding new_instance
new_instance-IsPlainName now id type_id name display_name description config constraints i h =
    elim (Bool-cases (is_valid_name name)) [
      | inr bad ↦ let failed : err (validation "name") ≡ ok i = rw bad at h in cc
      | inl good ↦ (is_valid_name-IsPlainName name good, ground arith, ground arith, ground arith)
    ]

-- The calls that change the status of an instance, and what a sequence of them leaves.
pub data Call : Type 0 where
  activate degrade take_offline fail : Call

abbrev pub call : Call → ℕ → ProviderInstance → ProviderInstance
call activate now i = (mark_active now i).0
call degrade now i = (mark_degraded now i).0
call take_offline now i = (mark_offline now i).0
call fail now i = mark_instance_failed now i

abbrev pub calls : List (Call × ℕ) → ProviderInstance → ProviderInstance
calls [] i = i
calls ((c, now) ∷ cs) i = calls cs (call c now i)

call_offline :
    (c : Call) (now : ℕ) (i : ProviderInstance)
    → i.status ≡ offline
    → (call c now i).status ≡ offline
unfolding mark_active mark_degraded mark_offline mark_instance_failed
call_offline activate now i h = ground arith
call_offline degrade now i h = ground arith
call_offline take_offline now i h = ground arith
call_offline fail now i h = refl

-- An instance that is offline stays offline, whatever calls follow.
pub calls_offline :
    (cs : List (Call × ℕ)) (i : ProviderInstance)
    → i.status ≡ offline
    → (calls cs i).status ≡ offline
calls_offline [] i h = h
calls_offline ((c, now) ∷ cs) i h = calls_offline cs (call c now i) (call_offline c now i h)
