-- ===== src/Provider/Config/Laws.antt =====
-- What the constructors of crates/bastion-domain/src/provider/instance_config.rs accept.
use bastion.Base.{◌≡◌, true, Text, arith}
use bastion.Sandbox.Errors.{ok}
use bastion.Provider.Config.{
  AwsCredentials, static_creds, is_valid_aws, ProviderInstanceConfig, local_config_new,
  lambda_config_new, is_valid_local, is_valid_lambda,
}

-- A configuration for local execution that is accepted has a directory.
local_valid :
    (workspace_dir : Text) (c : ProviderInstanceConfig)
    → local_config_new workspace_dir ≡ ok c
    → is_valid_local c ≡ true
unfolding local_config_new is_valid_local
local_valid workspace_dir c h = ground arith

-- One for Lambda that is accepted has a region.
lambda_valid :
    (region : Text) (c : ProviderInstanceConfig)
    → lambda_config_new region ≡ ok c
    → is_valid_lambda c ≡ true
unfolding lambda_config_new is_valid_lambda
lambda_valid region c h = ground arith

-- Static credentials that are accepted are valid.
static_valid :
    (access_key_id secret_access_key : Text) (c : AwsCredentials)
    → static_creds access_key_id secret_access_key ≡ ok c
    → is_valid_aws c ≡ true
unfolding static_creds is_valid_aws
static_valid access_key_id secret_access_key c h = ground arith
