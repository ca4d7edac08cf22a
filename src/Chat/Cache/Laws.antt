-- ===== src/Chat/Cache/Laws.antt =====
-- What the cache and the rate limit promise, while the server answers.
use flowxrag.Prelude.{
  ℕ, zero, suc, ◌-◌, min, List, [], ◌∷◌, Bool, true, false, ◌==◌, leb, none, some, ◌≡◌, ◌<◌, ◌≤◌,
  refl, arith, Bool-cases, inl, inr, is_empty, length, keep,
}
use flowxrag.Text.{Text, strip}
use flowxrag.Effects.{ok}
use flowxrag.Chat.Cache.{
  Redis, Settings, Json, cache_key, rate_key, get_cached_answer, set_cached_answer,
  check_rate_limit,
}

-- The server answers, and its commands do what Redis documents: a value that is set for a time above
-- 0 is read until that time is over, and is gone from then on, a counter that is missing counts from 0 and keeps its count when it is given a minute.
pub record IsRedis (redis : Redis) : Type 0 where
  pub set_get :
      (key value : Text) (ttl n : ℕ) (s : redis.Server)
      → n < ttl
      → redis.get key (redis.tick n (redis.setex key ttl value s).1) ≡ ok (some value)
  pub set_expires :
      (key value : Text) (ttl n : ℕ) (s : redis.Server)
      → 0 < ttl
      → ttl ≤ n
      → redis.get key (redis.tick n (redis.setex key ttl value s).1) ≡ ok none
  pub count : Text → redis.Server → ℕ
  pub incr_result : (key : Text) (s : redis.Server) → (redis.incr key s).0 ≡ ok (suc (count key s))
  pub incr_count :
      (key : Text) (s : redis.Server) → count key (redis.incr key s).1 ≡ suc (count key s)
  pub expire_result : (key : Text) (n : ℕ) (s : redis.Server) → (redis.expire key n s).0 ≡ ok tt
  pub expire_count :
      (key : Text) (n : ℕ) (s : redis.Server) → count key (redis.expire key n s).1 ≡ count key s

-- One request more.
next :
    (before after n limit : ℕ) (b : Bool) (rest : List Bool)
    → b ≡ leb (suc before) limit
    → after ≡ suc before
    → length (keep (λ b. b) rest) ≡ min n (limit - after)
    → length (keep (λ b. b) (b ∷ rest)) ≡ min (suc n) (limit - before)
next before after n limit b rest h k e = ground (arith, h, k, e)

module _ (redis : Redis) (settings : Settings) (digest : Text → Text) (lower : Text → Text) where
  open redis use {Server}

  -- An answer that is cached is found again, until its time is over, by every question that differs
  -- in letter case and surrounding white space only.
  pub get_cached_answer-set_cached_answer :
      {A : Type 0} (json : Json A) (question again : Text) (answer : A) (n : ℕ) (s : Server)
      → IsRedis redis
      → json.loads (json.dumps answer) ≡ ok answer
      → is_empty (json.dumps answer) ≡ false
      → settings.cache_enabled ≡ true
      → lower (strip again) ≡ lower (strip question)
      → n < settings.cache_ttl_seconds
      → get_cached_answer redis settings digest lower json again
          (redis.tick n (set_cached_answer redis settings digest lower json question answer s))
        ≡ some answer
  unfolding get_cached_answer set_cached_answer cache_key
  get_cached_answer-set_cached_answer json question again answer n s h l e on same_key in_time =
      let key = cache_key redis settings digest lower question in
      rw (on, same_key, h.set_get key _ settings.cache_ttl_seconds n s in_time, e, l) refl

  -- From the end of its time on, it is not found.
  pub set_cached_answer-expires :
      {A : Type 0} (json : Json A) (question again : Text) (answer : A) (n : ℕ) (s : Server)
      → IsRedis redis
      → settings.cache_enabled ≡ true
      → lower (strip again) ≡ lower (strip question)
      → 0 < settings.cache_ttl_seconds
      → settings.cache_ttl_seconds ≤ n
      → get_cached_answer redis settings digest lower json again
          (redis.tick n (set_cached_answer redis settings digest lower json question answer s))
        ≡ none
  unfolding get_cached_answer set_cached_answer cache_key
  set_cached_answer-expires json question again answer n s h on same_key lasts late =
      let key = cache_key redis settings digest lower question in
      rw (on, same_key, h.set_expires key _ settings.cache_ttl_seconds n s lasts late) refl

  -- The tests of n requests of a client, one behind the other.
  abbrev pub requests : Text → ℕ → Server → List Bool
  requests client zero s = []
  requests client (suc n) s =
      let tested = check_rate_limit redis settings digest lower client s in
      tested.0 ∷ requests client n tested.1

  check_rate_limit-count :
      (client : Text) (s : Server)
      → (h : IsRedis redis)
      → ((check_rate_limit redis settings digest lower client s).0
          ≡ leb
              (suc (h.count (rate_key redis settings digest lower client) s))
              settings.rate_limit_per_minute)
        × (h.count
              (rate_key redis settings digest lower client)
              (check_rate_limit redis settings digest lower client s).1
            ≡ suc (h.count (rate_key redis settings digest lower client) s))
  unfolding check_rate_limit
  check_rate_limit-count client s h =
      let key = rate_key redis settings digest lower client in
      elim (Bool-cases (suc (h.count key s) == 1)) [
        | inl e ↦ rw (h.incr_result, e, h.expire_result, h.expire_count, h.incr_count) (refl, refl)
        | inr e ↦ rw (h.incr_result, e, h.incr_count) (refl, refl)
      ]

  -- Of the requests of a client within one window, exactly the first `rate_limit_per_minute` are
  -- allowed, less those that were counted before.
  pub requests-count :
      (client : Text) (n : ℕ) (s : Server)
      → (h : IsRedis redis)
      → length (keep (λ b. b) (requests client n s))
        ≡ min n (
            settings.rate_limit_per_minute
            - h.count (rate_key redis settings digest lower client) s)
  requests-count client zero s h = omega arith
  requests-count client (suc n) s h =
      let key = rate_key redis settings digest lower client in
      let tested = check_rate_limit redis settings digest lower client s in
      let c = check_rate_limit-count client s h in
      let rest = requests-count client n tested.1 h in
      next (h.count key s) (h.count key tested.1) n settings.rate_limit_per_minute tested.0
        (requests client n tested.1) c.0 c.1 rest
