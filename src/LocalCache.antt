-- ===== src/LocalCache.antt =====
-- pkg/backend/v1/cache.go: `LocalCache`, the in-memory implementation of `Cacheable`.
use scale_authorizer.Prelude.{String, Option, List}
use scale_authorizer.Application.{Application}
use scale_authorizer.Host.{ConcurrentMap}

module _ {S : Type 0} (cmap : ConcurrentMap S Application) where
  unfoldable pub new_local_cache : S
  new_local_cache = cmap.new

  unfoldable pub get : S → String → Option Application
  get cache cache_key = cmap.get cache cache_key

  unfoldable pub set : S → String → Application → S
  set cache cache_key app = cmap.set cache cache_key app

  unfoldable pub keys : S → List String
  keys cache = cmap.keys cache
