-- ===== src/Template/Layer/Laws.antt =====
-- The stack of layers of crates/bastion-domain/src/template/layer.rs over sequences of calls, and the
-- environment that it combines.
use bastion.Base.{
  ◌+◌, ◌≤◌, ◌≡◌, refl, ap, ◌∙◌, inl, inr, Bool, true, false, ◌||◌, Option, none, some, List, [],
  ◌∷◌, ◌++◌, leb, length, length-append, if◌then◌else◌, Bool-cases, Text, text_eq, text_beq_iff,
  ◌==◌, arith,
}
use bastion.Base.Map.{lookup, insert, lookup-insert}
use bastion.Template.Layer.{
  LayerArtifact, LayerStack, max_layers, ok, err, has_layer, add, too_many_layers, duplicate_layer,
  remove_layer, insert_all, env_loop, combined_env,
}

-- No two layers have the same name.
abbrev pub AreDistinct : LayerStack → Type 0
AreDistinct [] = Unit {0}
AreDistinct (l ∷ layers) = (has_layer l.name layers ≡ false) × AreDistinct layers

abbrev pub IsStack : LayerStack → Type 0
IsStack layers = (length layers ≤ max_layers) × AreDistinct layers

-- The stacks that calls can lead to.
pub data Reached : LayerStack → Type 0 where
  empty : Reached []
  added : {layers : LayerStack} (l : LayerArtifact) → Reached layers → Reached (add l layers).1
  removed :
      {layers : LayerStack} (name : Text) → Reached layers → Reached (remove_layer name layers).1

has_layer-append :
    (name : Text) (layers : LayerStack) (l : LayerArtifact)
    → has_layer name (layers ++ l ∷ []) ≡ (has_layer name layers || (l.name == name))
has_layer-append name [] l = ground arith
has_layer-append name (k ∷ layers) l = ground (arith, has_layer-append name layers l)

AreDistinct-append :
    (layers : LayerStack) (l : LayerArtifact)
    → AreDistinct layers
    → has_layer l.name layers ≡ false
    → AreDistinct (layers ++ l ∷ [])
AreDistinct-append [] l h k = (refl, tt)
AreDistinct-append (j ∷ layers) l (h, hs) k = (
  ground (
    arith,
    has_layer-append j.name layers l,
    text_beq_iff j.name l.name,
    text_beq_iff l.name j.name,
  ),
  AreDistinct-append layers l hs (ground arith),
)

add-IsStack : (l : LayerArtifact) (layers : LayerStack) → IsStack layers → IsStack (add l layers).1
unfolding add
add-IsStack l layers (h, k) = elim (Bool-cases (leb max_layers (length layers))) [
  | inl full ↦ rw full (h, k)
  | inr room ↦ elim (Bool-cases (has_layer l.name layers)) [
    | inl there ↦ rw (room, there) (h, k)
    | inr fresh ↦
        let fits : length layers + 1 ≤ max_layers = ground arith in
        rw (room, fresh)
          (omega (arith, fits, length-append layers (l ∷ [])), AreDistinct-append layers l k fresh)
  ]
]

remove-has_layer :
    (name other : Text) (layers : LayerStack)
    → has_layer other layers ≡ false
    → has_layer other (remove_layer name layers).1 ≡ false
unfolding remove_layer
remove-has_layer name other [] h = refl
remove-has_layer name other (l ∷ layers) h = ground (arith, remove-has_layer name other layers)

length-remove-le :
    (name : Text) (layers : LayerStack) → length (remove_layer name layers).1 ≤ length layers
unfolding remove_layer
length-remove-le name [] = omega arith
length-remove-le name (l ∷ layers) = ground (arith, length-remove-le name layers)

remove-IsStack :
    (name : Text) (layers : LayerStack) → IsStack layers → IsStack (remove_layer name layers).1
unfolding remove_layer
remove-IsStack name [] h = h
remove-IsStack name (l ∷ layers) (h, (k, ks)) = elim (Bool-cases (l.name == name)) [
  | inl hit ↦ rw hit (omega (arith, h), ks)
  | inr miss ↦
      let rest = remove-IsStack name layers (omega (arith, h), ks) in
      rw miss (
        omega (arith, h, length-remove-le name layers),
        (remove-has_layer name l.name layers k, rest.1),
      )
]

-- However layers are added and removed, the stack has at most five of them, and no two with the
-- same name.
pub Reached-IsStack : {layers : LayerStack} → Reached layers → IsStack layers
Reached-IsStack empty = (omega arith, tt)
Reached-IsStack (added {layers} l r) = add-IsStack l layers (Reached-IsStack r)
Reached-IsStack (removed {layers} name r) = remove-IsStack name layers (Reached-IsStack r)

remove-append :
    (l : LayerArtifact) (layers : LayerStack)
    → has_layer l.name layers ≡ false
    → remove_layer l.name (layers ++ l ∷ []) ≡ (some l, layers)
unfolding remove_layer
remove-append l [] h = rw ((text_beq_iff l.name l.name).1 refl) refl
remove-append l (j ∷ layers) h = ground (arith, remove-append l layers)

-- A layer that is added can be taken out again by its name, which gives the stack as it was.
pub remove-add :
    (l : LayerArtifact) (layers : LayerStack)
    → (add l layers).0 ≡ ok
    → remove_layer l.name (add l layers).1 ≡ (some l, layers)
unfolding add
remove-add l layers h = elim (Bool-cases (leb max_layers (length layers))) [
  | inl full ↦ let failed : err too_many_layers ≡ ok = rw full at h in cc
  | inr room ↦ elim (Bool-cases (has_layer l.name layers)) [
    | inl there ↦ let failed : err (duplicate_layer l.name) ≡ ok = rw (room, there) at h in cc
    | inr fresh ↦ rw (room, fresh) (remove-append l layers fresh)
  ]
]

abbrev or_else : Option Text → Option Text → Option Text
or_else none other = other
or_else (some v) other = some v

-- The last value that a list of entries gives a key, and the last one that a stack does.
abbrev pub last_entry : Text → List (Text × Text) → Option Text
last_entry key [] = none
last_entry key ((k, v) ∷ entries) =
    or_else (last_entry key entries) (if k == key then some v else none)

abbrev pub last_layer : Text → LayerStack → Option Text
last_layer key [] = none
last_layer key (l ∷ layers) = or_else (last_layer key layers) (last_entry key l.template.env)

or_else_assoc : (a b c : Option Text) → or_else a (or_else b c) ≡ or_else (or_else a b) c
or_else_assoc none b c = refl
or_else_assoc (some v) b c = refl

or_else_if :
    (b : Bool) (v : Text) (o : Option Text)
    → (if b then some v else o) ≡ or_else (if b then some v else none) o
or_else_if true v o = refl
or_else_if false v o = refl

lookup-insert_all :
    (key : Text) (env entries : List (Text × Text))
    → lookup key (insert_all env entries) ≡ or_else (last_entry key entries) (lookup key env)
lookup-insert_all key env [] = refl
lookup-insert_all key env ((k, v) ∷ entries) =
    lookup-insert_all key (insert k v env) entries
    ∙ ap (or_else (last_entry key entries))
        (lookup-insert k key v env ∙ or_else_if (k == key) v (lookup key env))
    ∙ or_else_assoc (last_entry key entries) (if k == key then some v else none) (lookup key env)

lookup-env_loop :
    (key : Text) (env : List (Text × Text)) (layers : LayerStack)
    → lookup key (env_loop env layers) ≡ or_else (last_layer key layers) (lookup key env)
unfolding env_loop
lookup-env_loop key env [] = refl
lookup-env_loop key env (l ∷ layers) =
    lookup-env_loop key (insert_all env l.template.env) layers
    ∙ ap (or_else (last_layer key layers)) (lookup-insert_all key env l.template.env)
    ∙ or_else_assoc (last_layer key layers) (last_entry key l.template.env) (lookup key env)

lookup-nil : (key : Text) → lookup {V = Text} key [] ≡ none
unfolding lookup
lookup-nil key = refl

or_else-none : (o : Option Text) → or_else o none ≡ o
or_else-none none = refl
or_else-none (some v) = refl

-- In the combined environment a variable has the value of the last layer that sets it.
pub combined_env-last :
    (key : Text) (layers : LayerStack) → lookup key (combined_env layers) ≡ last_layer key layers
unfolding combined_env
combined_env-last key layers =
    lookup-env_loop key [] layers
    ∙ ap (or_else (last_layer key layers)) (lookup-nil key)
    ∙ or_else-none (last_layer key layers)
