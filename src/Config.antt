-- ===== src/Config.antt =====
-- config.py: the settings that the modelled code reads, with their routing of models by provider.
use dealership_agent.Base.{String, if◌then◌else◌, ℕ, ◌=ₛ◌}

pub record Settings : Type 0 where
  pub app_env : String
  pub jwt_access_token_expire_minutes : ℕ
  pub jwt_public_key_path : String
  pub jwt_private_key_path : String
  pub jwt_algorithm : String
  pub jwt_issuer : String
  pub jwt_audience : String
  pub rate_limit_per_customer_per_minute : ℕ
  pub rate_limit_global_per_minute : ℕ
  pub llm_provider : String
  pub llm_model_classifier : String
  pub llm_model_synthesis : String
  pub groq_api_key : String
  pub llm_retry_max_retries : ℕ
  pub llm_retry_base_delay_seconds : ℕ
  pub llm_retry_max_delay_seconds : ℕ
  pub aws_region : String
  pub bedrock_model_classifier : String
  pub bedrock_model_synthesis : String
  pub loop_observation_max_chars : ℕ
  pub loop_token_budget : ℕ

unfoldable pub model_classifier : Settings → String
model_classifier s =
    if s.llm_provider =ₛ "bedrock" then s.bedrock_model_classifier else s.llm_model_classifier

unfoldable pub model_synthesis : Settings → String
model_synthesis s =
    if s.llm_provider =ₛ "bedrock" then s.bedrock_model_synthesis else s.llm_model_synthesis

-- The defaults of the class.
abbrev pub defaults : Settings
defaults = record {
  app_env = "development";
  jwt_access_token_expire_minutes = 30;
  jwt_public_key_path = "";
  jwt_private_key_path = "";
  jwt_algorithm = "RS256";
  jwt_issuer = "dealership-agent";
  jwt_audience = "dealership-agent-api";
  rate_limit_per_customer_per_minute = 20;
  rate_limit_global_per_minute = 200;
  llm_provider = "groq";
  llm_model_classifier = "";
  llm_model_synthesis = "";
  groq_api_key = "";
  llm_retry_max_retries = 3;
  llm_retry_base_delay_seconds = 1;
  llm_retry_max_delay_seconds = 20;
  aws_region = "eu-west-1";
  bedrock_model_classifier = "";
  bedrock_model_synthesis = "";
  loop_observation_max_chars = 800;
  loop_token_budget = 4000;
}
