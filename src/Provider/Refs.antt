-- ===== src/Provider/Refs.antt =====
-- What a provider's configuration refers to: socket_ref.rs, mount_ref.rs, image_reference.rs and
-- worker_binary_source.rs of crates/bastion-domain/src/provider.
use bastion.Base.{Bool, true, false, Option, none, Text, codes}

pub data SocketRef : Type 0 where
  unix : Text → SocketRef
  tcp : Text → SocketRef
  ssh : Text → Option Text → Option Text → SocketRef

unfoldable pub address : SocketRef → Text
address (SocketRef.unix a) = a
address (SocketRef.tcp a) = a
address (SocketRef.ssh a ssh_key ssh_user) = a

pub record MountRef : Type 0 where
  pub source : Text
  pub target : Text
  pub read_only : Bool
  pub mount_type : Text

unfoldable pub new_rw : Text → Text → MountRef
new_rw source target = record {
  source = source;
  target = target;
  read_only = false;
  mount_type = codes "bind";
}

unfoldable pub new_ro : Text → Text → MountRef
new_ro source target = record {
  source = source;
  target = target;
  read_only = true;
  mount_type = codes "bind";
}

pub data ContainerNetworkMode : Type 0 where
  bridge none_ host container : ContainerNetworkMode

pub data ImagePullPolicy : Type 0 where
  always if_not_present never : ImagePullPolicy

pub data SecretValueKind : Type 0 where
  plain_text base64 file : SecretValueKind

pub record SecretValue : Type 0 where
  pub kind : SecretValueKind
  pub value : Text

pub record Platform : Type 0 where
  pub os : Text
  pub arch : Text
  pub variant : Option Text

pub record RegistryCredentials : Type 0 where
  pub username : Text
  pub password : SecretValue
  pub registry : Option Text

pub record ImageReference : Type 0 where
  pub reference : Text
  pub pull_policy : ImagePullPolicy
  pub credentials : Option RegistryCredentials
  pub platform : Option Platform

unfoldable pub new_image : Text → ImageReference
new_image reference = record {
  reference = reference;
  pull_policy = if_not_present;
  credentials = none;
  platform = none;
}

pub data ModuleRef : Type 0 where
  local : Text → ModuleRef
  remote : Text → Option Text → ModuleRef
  oci : ImageReference → Text → ModuleRef

pub data WorkerBinarySource : Type 0 where
  bind_mount : Text → WorkerBinarySource
  pre_baked : Option Text → WorkerBinarySource
  download : Text → Option Text → Option Text → Option Text → WorkerBinarySource
  compiled_to_wasm : ModuleRef → WorkerBinarySource
  sidecar : ImageReference → Option Text → WorkerBinarySource
  lambda_layer : Text → Option Text → WorkerBinarySource
