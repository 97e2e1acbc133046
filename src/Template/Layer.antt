-- ===== src/Template/Layer.antt =====
-- Layers and their stack, crates/bastion-domain/src/template/layer.rs. Of an artifact and its
-- environment the parts that the layers read are kept.
pub mod Laws
mod Tests
use bastion.Base.{
  ℕ, Bool, true, false, Option, none, some, List, [], ◌∷◌, ◌++◌, map, any, nat_eq, leb,
  if◌then◌else◌, length, Text, text_eq, ◌==◌, codes,
}
use bastion.Base.Map.{lookup, insert}
use bastion.Base.Chars.{show_ℕ}

pub record TemplateArtifact : Type 0 where
  pub name : Text
  pub digest : Text
  pub env : List (Text × Text)
  pub path_prefix : List Text

pub record LayerArtifact : Type 0 where
  pub id : Text
  pub name : Text
  pub version : ℕ
  pub arn : Text
  pub template : TemplateArtifact
  pub description : Option Text
  pub compatible_runtimes : List Text
  pub license : Option Text

-- `replace('/', "-")`.
abbrev dashed : Text → Text
dashed s = map (λ c. if nat_eq c b'/' then b'-' else c) s

unfoldable pub new_layer : TemplateArtifact → Option Text → LayerArtifact
unfolding show_ℕ
new_layer template description = record {
  id = codes "layer:" ++ dashed template.name;
  name = template.name;
  version = 1;
  arn = codes "arn:bastion:layer:" ++ (dashed template.name ++ b':' ∷ show_ℕ 1);
  template = template;
  description = description;
  compatible_runtimes = [];
  license = none;
}

unfoldable pub mount_path : LayerArtifact → Text
mount_path layer = codes "/opt/bastion/layers" ++ b'/' ∷ layer.template.digest

-- `MAX_LAYERS_PER_FUNCTION`.
abbrev pub max_layers : ℕ
max_layers = 5

abbrev pub LayerStack : Type 0
LayerStack = List LayerArtifact

pub data LayerStackError : Type 0 where
  too_many_layers : LayerStackError
  duplicate_layer : Text → LayerStackError

pub data Added : Type 0 where
  ok : Added
  err : LayerStackError → Added

abbrev pub has_layer : Text → LayerStack → Bool
has_layer name layers = any (λ l. l.name == name) layers

-- A method returns its result and the stack.
unfoldable pub add : LayerArtifact → LayerStack → Added × LayerStack
add layer layers =
    if leb max_layers (length layers)
    then (err too_many_layers, layers)
    else if has_layer layer.name layers
    then (err (duplicate_layer layer.name), layers)
    else (ok, layers ++ layer ∷ [])

abbrev behind :
    LayerArtifact → Option LayerArtifact × LayerStack → Option LayerArtifact × LayerStack
behind l (found, layers) = (found, l ∷ layers)

-- The first layer with the name is taken out.
unfoldable pub remove_layer : Text → LayerStack → Option LayerArtifact × LayerStack
remove_layer name [] = (none, [])
remove_layer name (l ∷ layers) =
    let rest = behind l (remove_layer name layers) in
    if l.name == name then (some l, layers) else rest

abbrev flat_paths : LayerStack → List Text
flat_paths [] = []
flat_paths (l ∷ layers) = l.template.path_prefix ++ flat_paths layers

unfoldable pub combined_path_prefix : LayerStack → List Text
combined_path_prefix layers = flat_paths layers

-- The loops of `combined_env`.
abbrev insert_all : List (Text × Text) → List (Text × Text) → List (Text × Text)
insert_all env [] = env
insert_all env ((k, v) ∷ entries) = insert_all (insert k v env) entries

env_loop : List (Text × Text) → LayerStack → List (Text × Text)
env_loop env [] = env
env_loop env (l ∷ layers) = env_loop (insert_all env l.template.env) layers

unfoldable pub combined_env : LayerStack → List (Text × Text)
unfolding env_loop insert
combined_env layers = env_loop [] layers
