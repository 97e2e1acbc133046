-- ===== src/Resource/Name/Laws.antt =====
-- The parser of names against the printer, crates/bastion-domain/src/shared/brn.rs.
use mathlib.Core.Path.{subst}
use bastion.Base.{
  ℕ, ◌≡◌, refl, sym, ap, ◌∙◌, ◌↔◌, inl, inr, true, false, List, [], ◌∷◌, ◌++◌, drop, All,
  if◌then◌else◌, Bool-cases, Text, text_eq, text_beq_iff, codes, ◌==◌,
}
use bastion.Base.Chars.{is_empty, is_whitespace, trim, starts_with, split}
use bastion.Base.Chars.Trim.{ends_in_space, ends_in_space-append, ends_in_space-trim, trim_kept}
use bastion.Base.Chars.Split.{
  Lacks, join, join-split, split-Lacks, split-whole, split-front, starts_with-split,
}
use bastion.Resource.Name.{
  Brn, BrnNamespace, BrnType, Result, ok, err, parse_namespace, namespace_text, parse_type,
  type_text, parse_parts, parse_name, to_string, ◌>>=◌, missing_resource_id, invalid_format,
}

-- One comparison of a ladder of them.
arm {ℓ κ} :
    {A : Type ℓ} (P : A → Type κ) (s key : Text) (x rest : A)
    → (s ≡ key → P x)
    → P rest
    → P (if s == key then x else rest)
arm P s key x rest here later = elim (Bool-cases (s == key)) [
  | inl same ↦ rw same (here ((text_beq_iff s key).0 same))
  | inr other ↦ rw other later
]

-- A text was read by `read`, whose printer is `text`.
abbrev Reads {ℓ} : {A : Type ℓ} → (A → Text) → Text → Result A → Type 0
Reads text s (ok a) = s ≡ text a
Reads text s (err e) = Unit {0}

parse_namespace-Reads : (s : Text) → Reads namespace_text s (parse_namespace s)
unfolding parse_namespace namespace_text
parse_namespace-Reads s =
    let R = Reads namespace_text s in
    arm R s _ _ _ (λ e. e)
      (arm R s _ _ _ (λ e. e)
        (arm R s _ _ _ (λ e. e)
          (arm R s _ _ _ (λ e. e) (arm R s _ _ _ (λ e. e) (arm R s _ _ _ (λ e. e) tt)))))

parse_type-Reads : (s : Text) → Reads type_text s (parse_type s)
unfolding parse_type type_text
parse_type-Reads s =
    let R = Reads type_text s in
    arm R s _ _ _ (λ e. e)
      (arm R s _ _ _ (λ e. e)
        (arm R s _ _ _ (λ e. e)
          (arm R s _ _ _ (λ e. e)
            (arm R s _ _ _ (λ e. e)
              (arm R s _ _ _ (λ e. e)
                (arm R s _ _ _ (λ e. e)
                  (arm R s _ _ _ (λ e. e)
                    (arm R s _ _ _ (λ e. e)
                      (arm R s _ _ _ (λ e. e)
                        (arm R s _ _ _ (λ e. e)
                          (arm R s _ _ _ (λ e. e)
                            (arm R s _ _ _ (λ e. e) (arm R s _ _ _ (λ e. e) tt)))))))))))))

parse-namespace_text : (n : BrnNamespace) → parse_namespace (namespace_text n) ≡ ok n
unfolding parse_namespace namespace_text
parse-namespace_text BrnNamespace.sandbox = refl
parse-namespace_text BrnNamespace.project = refl
parse-namespace_text BrnNamespace.provider = refl
parse-namespace_text BrnNamespace.template = refl
parse-namespace_text BrnNamespace.catalog = refl
parse-namespace_text BrnNamespace.infra = refl

parse-type_text : (t : BrnType) → parse_type (type_text t) ≡ ok t
unfolding parse_type type_text
parse-type_text BrnType.sandbox = refl
parse-type_text BrnType.project = refl
parse-type_text BrnType.provider = refl
parse-type_text BrnType.instance_ = refl
parse-type_text BrnType.template = refl
parse-type_text BrnType.artifact = refl
parse-type_text BrnType.doctor = refl
parse-type_text BrnType.assertion = refl
parse-type_text BrnType.advice = refl
parse-type_text BrnType.experience = refl
parse-type_text BrnType.pool = refl
parse-type_text BrnType.worker = refl
parse-type_text BrnType.config = refl
parse-type_text BrnType.secret = refl

namespace_text-Lacks : (n : BrnNamespace) → Lacks b':' (namespace_text n)
unfolding namespace_text
namespace_text-Lacks BrnNamespace.sandbox = refl
namespace_text-Lacks BrnNamespace.project = refl
namespace_text-Lacks BrnNamespace.provider = refl
namespace_text-Lacks BrnNamespace.template = refl
namespace_text-Lacks BrnNamespace.catalog = refl
namespace_text-Lacks BrnNamespace.infra = refl

type_text-Lacks : (t : BrnType) → Lacks b':' (type_text t)
unfolding type_text
type_text-Lacks BrnType.sandbox = refl
type_text-Lacks BrnType.project = refl
type_text-Lacks BrnType.provider = refl
type_text-Lacks BrnType.instance_ = refl
type_text-Lacks BrnType.template = refl
type_text-Lacks BrnType.artifact = refl
type_text-Lacks BrnType.doctor = refl
type_text-Lacks BrnType.assertion = refl
type_text-Lacks BrnType.advice = refl
type_text-Lacks BrnType.experience = refl
type_text-Lacks BrnType.pool = refl
type_text-Lacks BrnType.worker = refl
type_text-Lacks BrnType.config = refl
type_text-Lacks BrnType.secret = refl

-- The parts of a name, as the printer joins them.
abbrev parts_of : Brn → List Text
parts_of b = namespace_text b.namespace ∷ type_text b.resource_type ∷ b.resource_id ∷ []

parse_parts-of : (b : Brn) → is_empty b.resource_id ≡ false → parse_parts (parts_of b) ≡ ok b
unfolding parse_parts
parse_parts-of b h = rw (parse-namespace_text b.namespace, parse-type_text b.resource_type, h) refl

-- What the three parts that were accepted are.
accepted_parts :
    (ns ty id : Text) (n : Result BrnNamespace) (t : Result BrnType) (b : Brn)
    → Reads namespace_text ns n
    → Reads type_text ty t
    → (n >>= λ namespace. t >>= λ resource_type.
        if is_empty id
        then err missing_resource_id
        else ok (record { namespace = namespace; resource_type = resource_type; resource_id = id }))
      ≡ ok b
    → (ns ∷ ty ∷ id ∷ [] ≡ parts_of b) × (is_empty b.resource_id ≡ false)
accepted_parts ns ty id (err e) t b p q h = cc
accepted_parts ns ty id (ok n) (err e) b p q h = cc
accepted_parts ns ty id (ok n) (ok t) b p q h = elim (Bool-cases (is_empty id)) [
  | inl blank ↦ let failed : err missing_resource_id ≡ ok b = rw blank at h in cc
  | inr some_id ↦
      let made : ok (record { namespace = n; resource_type = t; resource_id = id }) ≡ ok b =
        rw some_id at h in
      (cc, cc)
]

parse_parts-ok :
    (parts : List Text) (b : Brn)
    → parse_parts parts ≡ ok b
    → (parts ≡ parts_of b) × (is_empty b.resource_id ≡ false)
unfolding parse_parts
parse_parts-ok (ns ∷ ty ∷ id ∷ []) b h =
    accepted_parts ns ty id (parse_namespace ns) (parse_type ty) b (parse_namespace-Reads ns)
      (parse_type-Reads ty) h
parse_parts-ok [] b h = cc
parse_parts-ok (p ∷ []) b h = cc
parse_parts-ok (p ∷ q ∷ []) b h = cc
parse_parts-ok (p ∷ q ∷ r ∷ s ∷ parts) b h = cc

-- An identifier that a name can carry.
abbrev pub IsId : Text → Type 0
IsId id = (is_empty id ≡ false) × Lacks b':' id

split-parts :
    (b : Brn) → Lacks b':' b.resource_id → split b':' (join b':' (parts_of b)) ≡ parts_of b
split-parts b h =
    rw
      (
        split-front b':' (namespace_text b.namespace) _ (namespace_text-Lacks b.namespace),
        split-front b':' (type_text b.resource_type) _ (type_text-Lacks b.resource_type),
        split-whole b':' b.resource_id h,
      )
      refl

parse_name-of :
    (s : Text) (b : Brn) → trim s ≡ to_string b → IsId b.resource_id → parse_name s ≡ ok b
unfolding parse_name to_string
parse_name-of s b h v = rw (parse_name, h, split-parts b v.1) (parse_parts-of b v.0)

parse_name-printed :
    (trimmed : Text) (b : Brn)
    → starts_with trimmed (codes "brn:") ≡ true
    → parse_parts (split b':' (drop 4 trimmed)) ≡ ok b
    → (trimmed ≡ to_string b) × IsId b.resource_id
unfolding to_string
parse_name-printed trimmed b h k =
    let (parts, some_id) = parse_parts-ok (split b':' (drop 4 trimmed)) b k in
    let rest : drop 4 trimmed ≡ join b':' (parts_of b) =
      sym (join-split b':' (drop 4 trimmed)) ∙ ap (join b':') parts in
    let lacks : All (Lacks b':') (parts_of b) =
      subst (All (Lacks b':')) parts (split-Lacks b':' (drop 4 trimmed)) in
    (
      starts_with-split trimmed (codes "brn:") h ∙ ap (λ t. codes "brn:" ++ t) rest,
      (some_id, lacks.1.1.0),
    )

-- A text is read as a name exactly when it is, trimmed, what the printer gives for that name, and the
-- name's identifier is not empty and has no colon.
pub parse_name-ok_iff :
    (s : Text) (b : Brn) → (parse_name s ≡ ok b) ↔ ((trim s ≡ to_string b) × IsId b.resource_id)
unfolding parse_name
parse_name-ok_iff s b = (
  λ h. elim (Bool-cases (starts_with (trim s) (codes "brn:"))) [
    | inl named ↦
        let accepted : parse_parts (split b':' (drop 4 (trim s))) ≡ ok b = rw named at h in
        parse_name-printed (trim s) b named accepted
    | inr other ↦ let refused : err invalid_format ≡ ok b = rw other at h in cc
  ],
  λ h. parse_name-of s b h.0 h.1,
)

joined_full : (front : Text) (d : ℕ) (back : Text) → is_empty (front ++ d ∷ back) ≡ false
joined_full [] d back = refl
joined_full (c ∷ front) d back = refl

ends_of :
    (b : Brn)
    → is_empty b.resource_id ≡ false
    → ends_in_space (to_string b) ≡ ends_in_space b.resource_id
unfolding to_string
ends_of b h =
    let ty = type_text b.resource_type ++ b':' ∷ b.resource_id in
    let colon_id = ends_in_space-append (b':' ∷ []) b.resource_id h in
    ends_in_space-append (codes "brn:") _ (joined_full (namespace_text b.namespace) b':' ty)
    ∙ ends_in_space-append (namespace_text b.namespace) _ refl
    ∙ ends_in_space-append (b':' ∷ []) ty
        (joined_full (type_text b.resource_type) b':' b.resource_id)
    ∙ ends_in_space-append (type_text b.resource_type) _ refl
    ∙ colon_id

trim_name : (b : Brn) → ends_in_space (to_string b) ≡ false → trim (to_string b) ≡ to_string b
unfolding to_string is_whitespace
trim_name b h = trim_kept b'b' _ refl h

-- A name that is printed is read back exactly when its identifier is not empty, has no colon, and
-- does not end in white space.
pub parse-to_string_iff :
    (b : Brn)
    → (parse_name (to_string b) ≡ ok b) ↔ (
        (is_empty b.resource_id ≡ false)
        × Lacks b':' b.resource_id
        × (ends_in_space b.resource_id ≡ false))
parse-to_string_iff b = (
  λ h.
      let (kept, v) = (parse_name-ok_iff (to_string b) b).0 h in
      (v.0, v.1, sym (ends_of b v.0) ∙ (rw (← kept) (ends_in_space-trim (to_string b)))),
  λ h. (parse_name-ok_iff (to_string b) b).1 (trim_name b (ends_of b h.0 ∙ h.2), (h.0, h.1)),
)
