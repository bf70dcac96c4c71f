-- ===== src/Kafka/Address.antt =====
-- Which address the Kafka clients use.
use panda_go.Prelude.{
  ◌≡◌, ◌≢◌, ◌↔◌, ◌⊎◌, inl, inr, refl, none, some, [], ◌∷◌, arith, nat_eq, list_eq,
}
use panda_go.Go.Text.{GoString}
use panda_go.Go.Error.{Error, MaybeError}
use panda_go.Go.Process.{runs}
use panda_go.External.Retry.{RetryLib}
use panda_go.Nacos.Param.{Env}
use panda_go.Nacos.Client.{Sdk, NacosClient, Getting, get_config}
use panda_go.Kafka.{
  service_config, common_config, common_url, service_url, second_read, after_first_read, kafka_url,
}

common_url-runs :
    (e : MaybeError) (url u : GoString)
    → common_url e url ≡ runs u
    → (u ≢ []) × (url ≡ u) × (e ≡ none)
unfolding common_url
common_url-runs (some e) url u h = ground arith
common_url-runs none [] u h = ground arith
common_url-runs none (x ∷ url) u h = ground arith

service_url-full : (u : GoString) → u ≢ [] → service_url u ≡ runs u
unfolding service_url
service_url-full [] full = absurd (full refl)
service_url-full (x ∷ u) full = refl

common_url-full : (u : GoString) → u ≢ [] → common_url none u ≡ runs u
unfolding common_url
common_url-full [] full = absurd (full refl)
common_url-full (x ∷ u) full = refl

service_url-runs : (url u : GoString) → service_url url ≡ runs u → (u ≢ []) × (url ≡ u)
unfolding service_url
service_url-runs [] u h = ground arith
service_url-runs (x ∷ url) u h = ground arith

module _ {H W : Type 0} (sdk : Sdk W) (env : Env) (retry : RetryLib (Getting H W)) where
  -- The read of the service's own address, and then that of the common one
  abbrev pub first : NacosClient H W → (GoString × MaybeError) × NacosClient H W
  first c = get_config sdk env retry (service_config env) c

  abbrev pub second : NacosClient H W → (GoString × MaybeError) × NacosClient H W
  second c = get_config sdk env retry common_config (first c).1

  abbrev pub Gives : GoString → GoString × MaybeError → Type 0
  Gives u (url, e) = (url ≡ u) × (e ≡ none)

  -- Where an address comes from
  abbrev pub From : NacosClient H W → GoString → Type 0
  From c u = Gives u (first c).0 ⊎ ((e : Error) × ((first c).0.1 ≡ some e) × Gives u (second c).0)

  kafka_url_sound :
      (c : NacosClient H W) (u : GoString)
      → (kafka_url sdk env retry c).0 ≡ runs u
      → (u ≢ []) × From c u
  unfolding kafka_url second_read
  kafka_url_sound c u h = go (first c).0.1 refl h
    where
      go :
          (e : MaybeError)
          → (first c).0.1 ≡ e
          → (after_first_read sdk env retry e (first c).0.0 (first c).1).0 ≡ runs u
          → (u ≢ []) × From c u
      go none k t = let (full, same) = service_url-runs _ u t in (full, inl (same, k))
      go (some e) k t =
          let (full, same, fine) = common_url-runs _ _ u t in (full, inr (e, k, (same, fine)))

  kafka_url_complete :
      (c : NacosClient H W) (u : GoString)
      → u ≢ []
      → From c u
      → (kafka_url sdk env retry c).0 ≡ runs u
  unfolding kafka_url second_read
  kafka_url_complete c u full (inl (same, fine)) = rw (fine, same) (service_url-full u full)
  kafka_url_complete c u full (inr (e, failed, (same, fine))) =
      rw (failed, fine, same) (common_url-full u full)

  -- A Kafka client is opened with the address u if and only if u is not empty, and it is what the
  -- configuration of the service says or, when that cannot be read, what the common configuration
  -- says; the process ends in every case where there is no such u.
  pub kafka_url-From :
      (c : NacosClient H W) (u : GoString)
      → ((kafka_url sdk env retry c).0 ≡ runs u) ↔ ((u ≢ []) × From c u)
  kafka_url-From c u = (kafka_url_sound c u, λ (full, from). kafka_url_complete c u full from)
