-- ===== src/Nacos/Param.antt =====
-- The configuration key of component/nacos/base/nacos-client.go and the process environment.
use panda_go.Prelude.{
  Bool, [], ◌≡◌, ◌↔◌, true, ◌&&◌, arith, if◌then◌else◌, Eq, ◌==◌, ==_iff, nat_eq, list_eq,
}
use panda_go.Go.Text.{GoString, lit, is_empty}

-- The package variables that `init` fills from the environment.
pub record Env : Type 0 where
  pub server_name : GoString
  pub namespace_env : GoString
  pub pod_name : GoString

-- init: defaults for the variables that the environment leaves empty
unfoldable pub init : Env → Env
unfolding lit
init env = record env {
  server_name = if is_empty env.server_name then lit "common" else env.server_name;
  namespace_env = if is_empty env.namespace_env then lit "DEFAULT_GROUP" else env.namespace_env;
}

pub record ConfigParam : Type 0 where
  pub data_id : GoString
  pub group : GoString
  pub content : GoString
  pub tag : GoString
  pub app_name : GoString
  pub beta_ips : GoString
  pub cas_md5 : GoString
  pub kind : GoString
  pub src_user : GoString
  pub encrypted_data_key : GoString
  pub kms_key_id : GoString
  pub usage_type : GoString

-- The SDK's vo.ConfigParam, without the callback `OnChange`.
pub record VoConfigParam : Type 0 where
  pub data_id : GoString
  pub group : GoString
  pub content : GoString
  pub tag : GoString
  pub app_name : GoString
  pub beta_ips : GoString
  pub cas_md5 : GoString
  pub kind : GoString
  pub src_user : GoString
  pub encrypted_data_key : GoString
  pub kms_key_id : GoString
  pub usage_type : GoString

unfoldable pub change_own_config_param2vo : ConfigParam → VoConfigParam
change_own_config_param2vo p = record {
  data_id = p.data_id;
  group = p.group;
  content = p.content;
  tag = p.tag;
  app_name = p.app_name;
  beta_ips = p.beta_ips;
  cas_md5 = p.cas_md5;
  kind = p.kind;
  src_user = p.src_user;
  encrypted_data_key = p.encrypted_data_key;
  kms_key_id = p.kms_key_id;
  usage_type = p.usage_type;
}

-- Go compares structs of strings field by field.
unfoldable pub param_beq : ConfigParam → ConfigParam → Bool
param_beq p q =
    (p.data_id == q.data_id)
    && ((p.group == q.group)
        && ((p.content == q.content)
            && ((p.tag == q.tag)
                && ((p.app_name == q.app_name)
                    && ((p.beta_ips == q.beta_ips)
                        && ((p.cas_md5 == q.cas_md5)
                            && ((p.kind == q.kind)
                                && ((p.src_user == q.src_user)
                                    && ((p.encrypted_data_key == q.encrypted_data_key)
                                        && ((p.kms_key_id == q.kms_key_id)
                                            && (p.usage_type == q.usage_type)))))))))))

pub param_beq_iff : (p q : ConfigParam) → (param_beq p q ≡ true) ↔ (p ≡ q)
unfolding param_beq
param_beq_iff p q = ground (
  arith,
  ==_iff p.data_id q.data_id,
  ==_iff p.group q.group,
  ==_iff p.content q.content,
  ==_iff p.tag q.tag,
  ==_iff p.app_name q.app_name,
  ==_iff p.beta_ips q.beta_ips,
  ==_iff p.cas_md5 q.cas_md5,
  ==_iff p.kind q.kind,
  ==_iff p.src_user q.src_user,
  ==_iff p.encrypted_data_key q.encrypted_data_key,
  ==_iff p.kms_key_id q.kms_key_id,
  ==_iff p.usage_type q.usage_type,
)

instance abbrev pub param_eq : Eq ConfigParam
param_eq = record { beq = param_beq; beq_iff = param_beq_iff }

-- ConfigParam{DataId: key}: the other fields are empty.
abbrev pub with_data_id : GoString → ConfigParam
with_data_id key = record {
  data_id = key;
  group = [];
  content = [];
  tag = [];
  app_name = [];
  beta_ips = [];
  cas_md5 = [];
  kind = [];
  src_user = [];
  encrypted_data_key = [];
  kms_key_id = [];
  usage_type = [];
}
