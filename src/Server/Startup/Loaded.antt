-- ===== src/Server/Startup/Loaded.antt =====
-- A storage provider that `build_storage_provider` of apps/server/src/main.rs returns has its operator.
use free_box.Prelude.{◌≡◌, refl, Option, none, some, ◌||◌, bytes_eq, if_either}
use free_box.Outcome.{Result, ok, err, ok_or}
use free_box.Server.Error.{CoreError}
use free_box.Server.Files.Keys.{codes}
use free_box.Storage.{Call, continue, lift, ◌>>=◌, StorageProvider}
use free_box.Storage.Local.{Operator, LocalPlugin, local_provider}
use free_box.Storage.Local.Lifecycle
use free_box.Storage.Local.Lifecycle.{Machine, make_root, set_operator}
use free_box.Storage.S3.{s3_provider}
use free_box.Texts.{is_empty}
use free_box.Storage.S3.Lifecycle as S3
use free_box.Storage.S3.Lifecycle.{Cloud, builder_of, verify}
use free_box.Plugin.{PluginContext, as_str, require_config}
use free_box.Server.Config.{Config}
use free_box.Server.Startup.{
  StartupError, Outside, provider_name, local_context, s3_context, loaded, build_storage_provider,
}

-- What holds of a call's errors and of what follows its success holds of the chain.
module _ {S A B : Type 0} (P : Result CoreError B × S → Type 0) where
  continue_rule :
      (r : Result CoreError A) (s : S) (f : A → Call S B)
      → ((e : CoreError) (t : S) → P (err e, t))
      → ((a : A) (t : S) → P (f a t))
      → P (continue r s f)
  continue_rule (ok a) s f bad good = good a s
  continue_rule (err e) s f bad good = bad e s

  bind_rule :
      (m : Call S A) (f : A → Call S B) (s : S)
      → ((e : CoreError) (t : S) → P (err e, t))
      → ((a : A) (t : S) → P (f a t))
      → P ((m >>= f) s)
  bind_rule m f s bad good = continue_rule (m s).0 (m s).1 f bad good

-- The plugin's cell is filled.
abbrev pub IsLoaded : {D : Type 0} → LocalPlugin D → Type 0
IsLoaded {D} s = (operator : Operator D) × (s.operator ≡ some operator)

module _ {D : Type 0} where
  abbrev LoadsIfOk : Result CoreError (Unit {0}) × LocalPlugin D → Type 0
  LoadsIfOk r = r.0 ≡ ok tt → IsLoaded r.1

  error-LoadsIfOk : (e : CoreError) (s : LocalPlugin D) → LoadsIfOk (err e, s)
  error-LoadsIfOk e s h = cc h

  set_operator-LoadsIfOk :
      (operator : Operator D) (cell : Option (Operator D)) (s : LocalPlugin D)
      → LoadsIfOk (set_operator operator cell s)
  set_operator-LoadsIfOk operator none s h = (operator, refl)
  set_operator-LoadsIfOk operator (some old) s h = cc h

  local_on_load-LoadsIfOk :
      (machine : Machine D) (ctx : PluginContext) (s : LocalPlugin D)
      → LoadsIfOk (Lifecycle.on_load machine ctx s)
  unfolding Lifecycle.on_load
  local_on_load-LoadsIfOk machine ctx s =
      bind_rule LoadsIfOk (lift (require_config ctx (codes "root"))) _ s error-LoadsIfOk
        (λ value s1.
          bind_rule LoadsIfOk (lift (ok_or (as_str value) CoreError.config)) _ s1 error-LoadsIfOk
            (λ root s2. bind_rule LoadsIfOk (make_root machine root) _ s2 error-LoadsIfOk (λ u s3.
              bind_rule LoadsIfOk (lift (ok_or (machine.operator_at root) CoreError.storage)) _ s3
                error-LoadsIfOk (λ operator s4. set_operator-LoadsIfOk operator s4.operator s4))))

  s3_on_load-LoadsIfOk :
      (cloud : Cloud D) (ctx : PluginContext) (s : LocalPlugin D)
      → LoadsIfOk (S3.on_load cloud ctx s)
  unfolding S3.on_load
  s3_on_load-LoadsIfOk cloud ctx s =
      bind_rule LoadsIfOk (lift (require_config ctx (codes "bucket"))) _ s error-LoadsIfOk
        (λ value s1.
          bind_rule LoadsIfOk (lift (ok_or (as_str value) CoreError.config)) _ s1 error-LoadsIfOk
            (λ bucket s2.
              let builder = builder_of ctx bucket in
              bind_rule LoadsIfOk (lift (ok_or (cloud.operator_of builder) CoreError.storage)) _ s2
                error-LoadsIfOk
                (λ operator s3.
                  bind_rule LoadsIfOk
                    (λ t. verify cloud ctx builder operator (cloud.list_root operator t.disk) t) _
                    s3 error-LoadsIfOk (λ u s4. set_operator-LoadsIfOk operator s4.operator s4))))

  abbrev BuildsLoaded :
      StorageProvider (LocalPlugin D)
      → Result StartupError (StorageProvider (LocalPlugin D)) × LocalPlugin D
      → Type 0
  BuildsLoaded p r = r.0 ≡ ok p → IsLoaded r.1

  loaded-BuildsLoaded :
      (p q : StorageProvider (LocalPlugin D)) (r : Result CoreError (Unit {0})) (s : LocalPlugin D)
      → LoadsIfOk (r, s)
      → BuildsLoaded q (loaded p (r, s))
  loaded-BuildsLoaded p q (ok u) s h good = h refl
  loaded-BuildsLoaded p q (err e) s h good = cc good

  -- Whatever the configuration says, a storage provider that the server starts with has been loaded: its
  -- operator is set, so no call of it is refused for want of one.
  pub build_storage_provider-IsLoaded :
      (outside : Outside D) (cfg : Config) (s : LocalPlugin D) (p : StorageProvider (LocalPlugin D))
      → (build_storage_provider outside cfg s).0 ≡ ok p
      → IsLoaded (build_storage_provider outside cfg s).1
  unfolding build_storage_provider
  build_storage_provider-IsLoaded outside cfg s p =
      let name = provider_name cfg in
      let local_end = Lifecycle.on_load outside.machine (local_context cfg) s in
      let s3_end = S3.on_load outside.cloud (s3_context cfg) s in
      if_either (BuildsLoaded p) (bytes_eq name (codes "local")) _ _
        (λ _.
          loaded-BuildsLoaded local_provider p local_end.0 local_end.1
            (local_on_load-LoadsIfOk outside.machine (local_context cfg) s))
        (λ _.
          if_either (BuildsLoaded p) (bytes_eq name (codes "s3") || bytes_eq name (codes "r2")) _ _
            (λ _.
              if_either (BuildsLoaded p) (is_empty cfg.storage_s3_bucket) _ _ (λ _ h. cc h)
                (λ _.
                  loaded-BuildsLoaded (s3_provider outside.url_parse) p s3_end.0 s3_end.1
                    (s3_on_load-LoadsIfOk outside.cloud (s3_context cfg) s)))
            (λ _ h. cc h))
