-- ===== src/Nacos/Publishes.antt =====
-- What PublishConfig sends, over both of its attempts.
use panda_go.Prelude.{Bool, [], ◌∷◌, if◌then◌else◌, ◌≢◌, ◌≡◌, refl, ◌∙◌, none, some, arith}
use panda_go.Go.Text.{GoString, is_empty}
use panda_go.Go.Error.{MaybeError}
use panda_go.External.Retry.{RetryLib, retry_twice, second_attempt}
use panda_go.Nacos.Param.{Env, ConfigParam, VoConfigParam, change_own_config_param2vo}
use panda_go.Nacos.Client.{
  Sdk, NacosClient, Publishing, prepare_publish, publish_once, publish_config,
}

-- The outcome of sending one request, and sending it again if the answer is an error.
abbrev pub resend :
    {A W : Type 0} → (W → (A × MaybeError) × W) → (A × MaybeError) × W → (A × MaybeError) × W
resend send ((b, none), w) = ((b, none), w)
resend send ((b, some e), w) = send w

-- What PublishConfig leaves when its requests held `q` and came to the given answer.
abbrev pub published :
    {H W : Type 0}
    → NacosClient H W
    → ConfigParam
    → (Bool × MaybeError) × W
    → MaybeError × Publishing H W
published c q ((b, e), w) = (e, record { client = record c { world = w }; param = q; success = b })

pub if_empty : (s a b : GoString) → s ≡ [] → (if is_empty s then a else b) ≡ a
if_empty [] a b h = refl
if_empty (c ∷ s) a b h = ground arith

pub otherwise : (s a b : GoString) → s ≢ [] → (if is_empty s then a else b) ≡ b
otherwise [] a b h = absurd (h refl)
otherwise (c ∷ s) a b h = refl

-- What PublishConfig sets in a parameter
pub record IsFilled (env : Env) (md5 : GoString → GoString) (old : GoString) (p q : ConfigParam)
    : Type 0 where
  pub digest : old ≢ [] → q.cas_md5 ≡ md5 old
  pub no_digest : old ≡ [] → q.cas_md5 ≡ p.cas_md5
  pub default_group : p.group ≡ [] → q.group ≡ env.namespace_env
  pub own_group : p.group ≢ [] → q.group ≡ p.group
  pub default_app : p.app_name ≡ [] → q.app_name ≡ env.server_name
  pub own_app : p.app_name ≢ [] → q.app_name ≡ p.app_name
  pub same :
      (q.data_id ≡ p.data_id)
      × (q.content ≡ p.content)
      × (q.tag ≡ p.tag)
      × (q.beta_ips ≡ p.beta_ips)
      × (q.kind ≡ p.kind)
      × (q.src_user ≡ p.src_user)
      × (q.encrypted_data_key ≡ p.encrypted_data_key)
      × (q.kms_key_id ≡ p.kms_key_id)
      × (q.usage_type ≡ p.usage_type)

-- The SDK's parameter has the fields of the program's.
abbrev pub Carries : ConfigParam → VoConfigParam → Type 0
Carries p v =
    (v.data_id ≡ p.data_id)
    × (v.group ≡ p.group)
    × (v.content ≡ p.content)
    × (v.tag ≡ p.tag)
    × (v.app_name ≡ p.app_name)
    × (v.beta_ips ≡ p.beta_ips)
    × (v.cas_md5 ≡ p.cas_md5)
    × (v.kind ≡ p.kind)
    × (v.src_user ≡ p.src_user)
    × (v.encrypted_data_key ≡ p.encrypted_data_key)
    × (v.kms_key_id ≡ p.kms_key_id)
    × (v.usage_type ≡ p.usage_type)

pub change_own_config_param2vo-Carries :
    (p : ConfigParam) → Carries p (change_own_config_param2vo p)
unfolding change_own_config_param2vo
change_own_config_param2vo-Carries p =
    (refl, refl, refl, refl, refl, refl, refl, refl, refl, refl, refl, refl)

prepare_publish-IsFilled :
    (env : Env) (md5 : GoString → GoString) (old : GoString) (p : ConfigParam)
    → IsFilled env md5 old p (prepare_publish env md5 old p)
unfolding prepare_publish
prepare_publish-IsFilled env md5 old p = record {
  digest = λ h. otherwise old _ _ h;
  no_digest = λ h. if_empty old _ _ h;
  default_group = λ h. if_empty p.group _ _ h;
  own_group = λ h. otherwise p.group _ _ h;
  default_app = λ h. if_empty p.app_name _ _ h;
  own_app = λ h. otherwise p.app_name _ _ h;
  same = (refl, refl, refl, refl, refl, refl, refl, refl, refl);
}

module _ (env : Env) (md5 : GoString → GoString) (old : GoString) where
  -- The second attempt finds the parameter as the first has filled it in.
  prepare_publish_idem :
      (p : ConfigParam)
      → prepare_publish env md5 old (prepare_publish env md5 old p) ≡ prepare_publish env md5 old p
  unfolding prepare_publish
  prepare_publish_idem p = ground arith

module _ {H W : Type 0} (sdk : Sdk W) (env : Env) where
  second_publish :
      (old : GoString) (p : ConfigParam) (c : NacosClient H W) (r : (Bool × MaybeError) × W)
      → (let q = prepare_publish env sdk.md5_string old p in
          second_attempt (publish_once sdk env old) (published c q r)
          ≡ published c q (resend (sdk.sdk_publish (change_own_config_param2vo q)) r))
  unfolding publish_once
  second_publish old p c ((b, none), w) = refl
  second_publish old p c ((b, some e), w) = rw (prepare_publish_idem env sdk.md5_string old p)

  publish_config-eq-published :
      (retry : RetryLib (Publishing H W)) (old : GoString) (p : ConfigParam) (c : NacosClient H W)
      → (let q = prepare_publish env sdk.md5_string old p in
          let send = sdk.sdk_publish (change_own_config_param2vo q) in
          publish_config sdk env retry p old c ≡ published c q (resend send (send c.world)))
  unfolding publish_config
  publish_config-eq-published retry old p c =
      retry_twice retry (publish_once sdk env old) _ ∙ second_publish old p c _

  -- PublishConfig sets the digest of the old content, unless that is empty, and the group and the name
  -- of the application, where they are empty, and leaves the other fields; it sends that parameter,
  -- sends the same parameter once more if the answer was an error, and returns the last answer; its
  -- caller's parameter is left filled in.
  pub publish_config-published :
      (retry : RetryLib (Publishing H W)) (old : GoString) (p : ConfigParam) (c : NacosClient H W)
      → (q : ConfigParam) × (v : VoConfigParam) × IsFilled env sdk.md5_string old p q
        × Carries q v
        × (publish_config sdk env retry p old c
            ≡ published c q (resend (sdk.sdk_publish v) (sdk.sdk_publish v c.world)))
  publish_config-published retry old p c =
      let q = prepare_publish env sdk.md5_string old p in
      (
        q,
        change_own_config_param2vo q,
        prepare_publish-IsFilled env sdk.md5_string old p,
        change_own_config_param2vo-Carries q,
        publish_config-eq-published retry old p c,
      )
