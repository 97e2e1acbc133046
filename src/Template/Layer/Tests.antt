-- ===== src/Template/Layer/Tests.antt =====
-- Runs of the stack of layers, and its theorems at concrete inputs.
use bastion.Base.{◌≡◌, refl, [], ◌∷◌, text_eq, none, some, Text, codes}
use bastion.Base.Map.{lookup}
use bastion.Template.Layer.{
  LayerArtifact, LayerStack, new_layer, mount_path, err, too_many_layers, duplicate_layer, add,
  remove_layer, combined_env, combined_path_prefix,
}
use bastion.Template.Layer.Laws.{
  IsStack, empty, added, removed, Reached-IsStack, last_layer, combined_env-last,
}

abbrev layer_of : Text → Text → LayerArtifact
layer_of name home = record {
  id = name;
  name = name;
  version = 1;
  arn = name;
  template = record {
    name = name;
    digest = codes "sha256:1";
    env = (codes "HOME", home) ∷ [];
    path_prefix = home ∷ [];
  };
  description = none;
  compatible_runtimes = [];
  license = none;
}

abbrev jvm : LayerArtifact
jvm = layer_of (codes "jvm") (codes "/jvm")

abbrev node : LayerArtifact
node = layer_of (codes "node") (codes "/node")

abbrev two : LayerStack
two = jvm ∷ node ∷ []

stack_test :
    ((add jvm two).0 ≡ err (duplicate_layer (codes "jvm")))
    × ((add jvm (node ∷ node ∷ node ∷ node ∷ node ∷ [])).0 ≡ err too_many_layers)
    × (remove_layer (codes "jvm") two ≡ (some jvm, node ∷ []))
    × (combined_path_prefix two ≡ codes "/jvm" ∷ codes "/node" ∷ [])
    × (mount_path jvm ≡ codes "/opt/bastion/layers/sha256:1")
    × ((new_layer (record jvm.template { name = codes "a/b" }) none).arn
        ≡ codes "arn:bastion:layer:a-b:1")
unfolding add remove_layer combined_path_prefix mount_path new_layer
stack_test = (refl, refl, refl, refl, refl, refl)

Reached-IsStack_example : IsStack (remove_layer (codes "jvm") (add node (add jvm []).1).1).1
Reached-IsStack_example = Reached-IsStack (removed (codes "jvm") (added node (added jvm empty)))

combined_env-last_example : lookup (codes "HOME") (combined_env two) ≡ last_layer (codes "HOME") two
combined_env-last_example = combined_env-last (codes "HOME") two
