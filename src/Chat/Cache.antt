-- ===== src/Chat/Cache.antt =====
-- backend/services/cache_service.py: the cache of answers, the rate limit and the lock, over Redis.
pub mod Laws
use flowxrag.Prelude.{
  ℕ, List, [], ◌∷◌, ◌++◌, Bool, true, false, not, ◌==◌, leb, Option, none, some, if◌then◌else◌,
  is_empty,
}
use flowxrag.Text.{Text, codes, strip}
use flowxrag.Effects.{Result, ok, raise}

-- The commands of the client of Redis, on the state of the server, its clock included; each may
-- raise. `tick n` lets n seconds pass.
pub record Redis : Type 1 where
  pub Server : Type 0
  pub tick : ℕ → Server → Server
  pub get : Text → Server → Result (Option Text)
  pub setex : Text → ℕ → Text → Server → Result (Unit {0}) × Server
  pub incr : Text → Server → Result ℕ × Server
  pub expire : Text → ℕ → Server → Result (Unit {0}) × Server
  -- `set(key, value, ex=ex, nx=True)`, with whether it has set the key
  pub set_nx : Text → Text → ℕ → Server → Result Bool × Server
  pub delete : Text → Server → Result (Unit {0}) × Server

-- The settings that the service reads.
pub record Settings : Type 0 where
  pub cache_enabled : Bool
  pub cache_ttl_seconds : ℕ
  pub rate_limit_per_minute : ℕ

-- `json.loads` and `json.dumps` on answers.
pub record Json (A : Type 0) : Type 0 where
  pub loads : Text → Result A
  pub dumps : A → Text

-- `digest` is the MD5 of a text's UTF-8 in hexadecimal digits, and `lower` is `str.lower`.
module _ (redis : Redis) (settings : Settings) (digest : Text → Text) (lower : Text → Text) where
  open redis use {Server, get, setex, incr, expire, set_nx, delete}

  unfoldable pub cache_key : Text → Text
  unfolding strip
  cache_key question = codes "crag:chat:cache:" ++ digest (lower (strip question))

  abbrev pub rate_key : Text → Text
  rate_key client_ip = codes "crag:rate:" ++ (client_ip ++ codes ":chat")

  abbrev pub lock_key : Text → Text
  lock_key resource = codes "crag:lock:" ++ resource

  module _ {A : Type 0} (json : Json A) where
    open json use {loads, dumps}

    abbrev pub value_of : Result A → Option A
    value_of (ok answer) = some answer
    value_of (raise e) = none

    abbrev pub cached_value : Result (Option Text) → Option A
    cached_value (ok none) = none
    cached_value (ok (some raw)) = if is_empty raw then none else value_of (loads raw)
    cached_value (raise e) = none

    unfoldable pub get_cached_answer : Text → Server → Option A
    unfolding cache_key
    get_cached_answer question server =
        if not settings.cache_enabled then none else cached_value (get (cache_key question) server)

    unfoldable pub set_cached_answer : Text → A → Server → Server
    unfolding cache_key
    set_cached_answer question answer server =
        if not settings.cache_enabled
        then server
        else (setex (cache_key question) settings.cache_ttl_seconds (dumps answer) server).1

  unfoldable pub invalidate_cache : Text → Server → Server
  unfolding cache_key
  invalidate_cache question server = (delete (cache_key question) server).1

  abbrev pub allowed : ℕ → Result (Unit {0}) → Bool
  allowed count (ok u) = leb count settings.rate_limit_per_minute
  allowed count (raise e) = true

  -- Behind the first request of a window, the key is given its minute; what that raises allows the
  -- request too.
  abbrev pub counted : Text → Result ℕ → Server → Bool × Server
  counted key (raise e) server = (true, server)
  counted key (ok count) server =
      let dated = expire key 60 server in
      if count == 1
      then (allowed count dated.0, dated.1)
      else (leb count settings.rate_limit_per_minute, server)

  unfoldable pub check_rate_limit : Text → Server → Bool × Server
  check_rate_limit client_ip server =
      let raised = incr (rate_key client_ip) server in
      counted (rate_key client_ip) raised.0 raised.1

  abbrev pub acquired : Result Bool → Bool
  acquired (ok set) = set
  acquired (raise e) = true

  unfoldable pub acquire_lock : Text → Server → Bool × Server
  acquire_lock resource server =
      let tried = set_nx (lock_key resource) (codes "1") 30 server in (acquired tried.0, tried.1)

  unfoldable pub release_lock : Text → Server → Server
  release_lock resource server = (delete (lock_key resource) server).1
